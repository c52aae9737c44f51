-- ===== src/Kernel/Db/Steps.antt =====
-- `define` and `forget` return and keep the invariant.
use forthdb.Prelude.{
  ◌≡◌, refl, sym, ◌∙◌, Option, none, some, List, [], ◌∷◌, ◌++◌, length, true, arith, ==_refl,
  get_elem?-length, get_elem?-append_length,
}
use forthdb.Prelude.Map.{Map, get, IsMap, insert-IsMap, remove-IsMap}
use forthdb.Prelude.Equality.{nat_equality, list_equality}
use forthdb.Kernel.Value.{RecordId, SlotId, Fact}
use forthdb.Kernel.Store.{
  Record, DefinitionStore, define_record, append_define, forget_record, revealed_by, set_head,
  forget_to,
}
use forthdb.Kernel.Store.Stacks.{
  Stacks, pushed, popped, Represents, append-Grows, append_define-Represents,
  append_forget-Represents,
}
use forthdb.Kernel.Store.History.{append_define-IsHistory, forget_to-IsHistory}
use forthdb.Kernel.Store.Active.{points, active, active-move}
use forthdb.Kernel.View.{CurrentView}
use forthdb.Kernel.View.Sound.{IsView, IsView-ext}
use forthdb.Kernel.Db.{ForthDb, remove_head, add_head, define, forget}
use forthdb.Kernel.Db.Sound.{IsSound}
use forthdb.Kernel.Db.Heads.{
  IsHead, Chain-IsHead, revealed-IsHead, without, remove_head-IsView, add_head-IsView,
  active-IsHead, IsHead-fact_at,
}

-- A step that appends a record and moves the slot's head keeps the view.
abbrev pub moved :
    SlotId
    → Record
    → Option RecordId
    → Map SlotId (List RecordId)
    → DefinitionStore
    → DefinitionStore
moved slot r next histories store = record {
  log = store.log ++ r ∷ [];
  head = set_head slot next store.head;
  slot_history = histories;
}

moved-IsView :
    (slot : SlotId) (db : ForthDb) (stacks : Stacks) (r : Record) (next : Option RecordId)
    (histories : Map SlotId (List RecordId))
    → IsSound db stacks
    → r.slot ≡ slot
    → ((i : RecordId)
        → points next i ≡ true
        → IsHead (moved slot r next histories db.store) slot i
          × (without (get slot db.store.head) (active db.store) i ≡ none))
    → (view : CurrentView) × (view' : CurrentView) × (remove_head
          (get slot db.store.head)
          db.store
          db.view
        ≡ some view)
      × (add_head next (moved slot r next histories db.store) view ≡ some view')
      × IsView (active (moved slot r next histories db.store)) view'
moved-IsView slot db stacks r next histories h here fresh =
    let old : Option RecordId = get slot db.store.head in
    let store' = moved slot r next histories db.store in
    let is_head =
      Chain-IsHead db.store slot (length db.store.log) old (stacks slot) (h.represents slot) in
    let (view, removed, v) =
      remove_head-IsView old db.store db.view (active db.store)
        (λ i p.
          let d = is_head i p in
          (d.f, IsHead-fact_at db.store slot i d, active-IsHead db.store slot i d ∙ rw p refl))
        h.view in
    let (view', added, v') =
      add_head-IsView next store' view (without old (active db.store))
        (λ i p. let d = (fresh i p).0 in (d.f, IsHead-fact_at store' slot i d, (fresh i p).1)) v in
    let move =
      active-move db.store.log db.store.head slot r next here
        (λ i p. let d = is_head i p in (d.r, d.found, d.slot))
        (λ i p. let d = (fresh i p).0 in (d.r, d.found, d.slot)) in
    (view, view', removed, added, IsView-ext (λ i. sym (move i)) v')

pub appended-fresh :
    (slot : SlotId) (db : ForthDb) (r : Record) (f : Fact) (histories : Map SlotId (List RecordId))
    → r.slot ≡ slot
    → r.fact ≡ some f
    → (i : RecordId) → points (some (length db.store.log)) i ≡ true
    → IsHead (moved slot r (some (length db.store.log)) histories db.store) slot i
      × (without (get slot db.store.head) (active db.store) i ≡ none)
appended-fresh slot db r f histories of fact i p =
    let eq : i ≡ length db.store.log = ground arith in
    (
      record {
        r = r;
        f = f;
        found = rw eq (get_elem?-append_length db.store.log r []);
        slot = of;
        fact = fact;
      },
      rw (eq, get_elem?-length db.store.log) (ground arith),
    )

pub revealed-fresh :
    (slot : SlotId) (db : ForthDb) (stacks : Stacks) (r : Record) (revealed : Option RecordId)
    (histories : Map SlotId (List RecordId))
    → Represents db.store stacks
    → revealed_by (get slot db.store.head) db.store ≡ some revealed
    → (i : RecordId) → points revealed i ≡ true
    → IsHead (moved slot r revealed histories db.store) slot i
      × (without (get slot db.store.head) (active db.store) i ≡ none)
revealed-fresh slot db stacks r revealed histories h e i p =
    let (d, apart) =
      revealed-IsHead db.store slot (length db.store.log) (get slot db.store.head) revealed
        (stacks slot) (h slot) e i p in
    (
      record {
        r = d.r;
        f = d.f;
        found = append-Grows db.store.log (r ∷ []) i d.r d.found;
        slot = d.slot;
        fact = d.fact;
      },
      rw (apart, active-IsHead db.store slot i d, apart) refl,
    )

pub set_head-IsMap :
    (slot : SlotId) (next : Option RecordId) (head : Map SlotId RecordId)
    → IsMap head
    → IsMap (set_head slot next head)
unfolding set_head
set_head-IsMap slot none head = remove-IsMap slot head
set_head-IsMap slot (some id) head = insert-IsMap slot id head

-- A define returns, keeps the invariant, and pushes the fact on the slot's stack.
pub define-IsSound :
    (slot : SlotId) (f : Fact) (db : ForthDb) (stacks : Stacks)
    → IsSound db stacks
    → (db' : ForthDb) × (define slot f db ≡ some (length db.store.log, db'))
      × IsSound db' (pushed slot f stacks)
unfolding define append_define define_record set_head add_head
define-IsSound slot f db stacks h =
    let n = length db.store.log in
    let r = define_record n slot f (get slot db.store.head) in
    let histories = (append_define slot f db.store).1.slot_history in
    let (view, view', removed, added, v) =
      moved-IsView slot db stacks r (some n) histories h refl
        (appended-fresh slot db r f histories refl refl) in
    (
      record {
        store = (append_define slot f db.store).1;
        view = view';
        next_entity = db.next_entity;
      },
      rw (removed, added) refl,
      record {
        represents = append_define-Represents slot f db.store stacks h.represents;
        history = append_define-IsHistory slot f db.store h.history;
        view = v;
        heads = insert-IsMap slot n db.store.head h.heads;
      },
    )

-- A forget returns, keeps the invariant, and pops the slot's stack.
pub forget-IsSound :
    (slot : SlotId) (db : ForthDb) (stacks : Stacks)
    → IsSound db stacks
    → (db' : ForthDb) × (forget slot db ≡ some (length db.store.log, db'))
      × IsSound db' (popped slot stacks)
unfolding forget forget_record
forget-IsSound slot db stacks h =
    let (revealed, e, appended, represents) =
      append_forget-Represents slot db.store stacks h.represents in
    let n = length db.store.log in
    let r = forget_record n slot (get slot db.store.head) revealed in
    let histories = (forget_to slot revealed db.store).1.slot_history in
    let (view, view', removed, added, v) =
      moved-IsView slot db stacks r revealed histories h refl
        (revealed-fresh slot db stacks r revealed histories h.represents e) in
    (
      record {
        store = (forget_to slot revealed db.store).1;
        view = view';
        next_entity = db.next_entity;
      },
      rw (removed, appended, added) refl,
      record {
        represents = represents;
        history = forget_to-IsHistory slot revealed db.store h.history;
        view = v;
        heads = set_head-IsMap slot revealed db.store.head h.heads;
      },
    )

pub head_active :
    (store : DefinitionStore) (stacks : Stacks)
    → Represents store stacks
    → (slot : SlotId) (id : RecordId) → get slot store.head ≡ some id
    → (f : Fact) × (active store id ≡ some f)
head_active store stacks h slot id e =
    let here : points (get slot store.head) id ≡ true = rw e (==_refl id) in
    let d =
      Chain-IsHead store slot (length store.log) (get slot store.head) (stacks slot) (h slot) id
        here in
    (d.f, active-IsHead store slot id d ∙ rw here refl)

pub heads-active :
    (db : ForthDb) (stacks : Stacks)
    → IsSound db stacks
    → (slot : SlotId) (id : RecordId) → get slot db.store.head ≡ some id
    → (f : Fact) × (active db.store id ≡ some f)
heads-active db stacks h = head_active db.store stacks h.represents
