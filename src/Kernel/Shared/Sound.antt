-- ===== src/Kernel/Shared/Sound.antt =====
-- shared_db_v2.rs: the invariant of the database, and that its operations return and keep it.
use forthdb.Prelude.{
  ◌≤◌, ◌≡◌, refl, sym, ap, ◌∙◌, Option, none, some, List, [], ◌∷◌, ◌++◌, length, length-append,
  true, arith, ltb-false, ==_refl,
}
use forthdb.Prelude.Map.{Map, get, IsMap}
use forthdb.Prelude.Equality.{nat_equality, list_equality}
use forthdb.Kernel.Value.{RecordId, SlotId, Fact}
use forthdb.Kernel.Store.{
  Record, DefinitionStore, define_record, forget_record, revealed_by, set_head, forget_to, fact_at,
}
use forthdb.Kernel.Store
use forthdb.Kernel.Store.Stacks.{
  Stacks, no_facts, pushed, popped, Represents, empty_store-Represents, append-Grows,
  append_define-Represents, append_forget-Represents,
}
use forthdb.Kernel.Store.Active.{points, active, active-move}
use forthdb.Kernel.View.Sound.{
  IsView, empty_view-IsView, IsView-ext, add_fact-IsView, remove_fact-IsView,
}
use forthdb.Kernel.Db.{ForthDb as LegacyDb}
use forthdb.Kernel.Db.Heads.{
  IsHead, Chain-IsHead, without, with_head, active-IsHead, IsHead-fact_at, updated-fact,
}
use forthdb.Kernel.Db.Steps.{moved, appended-fresh, revealed-fresh, set_head-IsMap}
use forthdb.Kernel.Shared.{
  replaced, SharedCurrentView, ForthDb, new, entity, define, forget, move_head, add, remove,
  replace, append_define, append_forget, store_valid, validate,
}
use forthdb.Kernel.Shared.Moves.{move_fact-IsView}
use forthdb.Kernel.Shared.Signature.{replaced-count, length-set_head}

pub record IsSound (db : ForthDb) (stacks : Stacks) : Type 0 where
  pub represents : Represents db.store.definitions stacks
  pub view : IsView (active db.store.definitions) db.view.indexes
  pub heads : IsMap db.store.definitions.head
  pub count : db.store.active_signature.count ≡ length db.store.definitions.head
  pub few : length db.store.definitions.head ≤ length db.store.definitions.log
  pub agreed : db.view.active_signature ≡ db.store.active_signature

pub new-IsSound : IsSound new no_facts
new-IsSound = record {
  represents = empty_store-Represents;
  view = empty_view-IsView;
  heads = tt;
  count = refl;
  few = omega arith;
  agreed = refl;
}

pub entity-IsSound :
    (db : ForthDb) (stacks : Stacks) → IsSound db stacks → IsSound (entity db).1 stacks
unfolding entity
entity-IsSound db stacks h = record {
  represents = h.represents;
  view = h.view;
  heads = h.heads;
  count = h.count;
  few = h.few;
  agreed = h.agreed;
}

-- The view follows a head.
abbrev Moves :
    Option RecordId
    → Option RecordId
    → DefinitionStore
    → (RecordId → Option Fact)
    → SharedCurrentView
    → Type 0
Moves old next store act view =
    (view' : SharedCurrentView) × (move_head old next store view ≡ some view')
    × (view'.active_signature ≡ replaced old next view.active_signature)
    × IsView (with_head next store (without old act)) view'.indexes

move_head-Moves :
    (old next : Option RecordId) (store : DefinitionStore) (view : SharedCurrentView)
    (act : RecordId → Option Fact)
    → ((i : RecordId)
        → points old i ≡ true
        → (f : Fact) × (fact_at i store ≡ some f) × (act i ≡ some f))
    → ((i : RecordId)
        → points next i ≡ true
        → (f : Fact) × (fact_at i store ≡ some f) × (without old act i ≡ none))
    → IsView act view.indexes
    → Moves old next store act view
unfolding move_head replaced add remove replace
move_head-Moves none none store view act was now v = (view, refl, refl, v)
move_head-Moves none (some new) store view act was now v =
    let (g, found, fresh) = now new (==_refl new) in
    (
      _,
      rw found refl,
      refl,
      IsView-ext (λ i. updated-fact store new g act i found) (add_fact-IsView new g fresh v),
    )
move_head-Moves (some old) none store view act was now v =
    let (f, found, here) = was old (==_refl old) in
    (_, rw found refl, refl, remove_fact-IsView old f here v)
move_head-Moves (some old) (some new) store view act was now v =
    let (f, found, here) = was old (==_refl old) in
    let (g, found', fresh) = now new (==_refl new) in
    (
      _,
      rw (found, found') refl,
      refl,
      IsView-ext (λ i. updated-fact store new g (without (some old) act) i found')
          (move_fact-IsView old new f g here fresh v),
    )

module _ (slot : SlotId) (db : ForthDb) (stacks : Stacks) (h : IsSound db stacks) where
  -- A record is appended and the slot's head moves.
  moved-Moves :
      (r : Record) (next : Option RecordId) (histories : Map SlotId (List RecordId))
      → r.slot ≡ slot
      → ((i : RecordId)
          → points next i ≡ true
          → IsHead (moved slot r next histories db.store.definitions) slot i
            × (without (get slot db.store.definitions.head) (active db.store.definitions) i ≡ none))
      → (view' : SharedCurrentView) × (move_head
            (get slot db.store.definitions.head)
            next
            (moved slot r next histories db.store.definitions)
            db.view
          ≡ some view')
        × (view'.active_signature
            ≡ replaced (get slot db.store.definitions.head) next db.store.active_signature)
        × IsView (active (moved slot r next histories db.store.definitions)) view'.indexes
  moved-Moves r next histories here fresh =
      let store = db.store.definitions in
      let old : Option RecordId = get slot store.head in
      let store' = moved slot r next histories store in
      let is_head =
        Chain-IsHead store slot (length store.log) old (stacks slot) (h.represents slot) in
      let kept : (i : RecordId) → IsHead store slot i → IsHead store' slot i = λ i d. record {
        r = d.r;
        f = d.f;
        found = append-Grows store.log (r ∷ []) i d.r d.found;
        slot = d.slot;
        fact = d.fact;
      } in
      let (view', done, sig, v) =
        move_head-Moves old next store' db.view (active store)
          (λ i p.
            let d = is_head i p in
            (
              d.f,
              IsHead-fact_at store' slot i (kept i d),
              active-IsHead store slot i d ∙ rw p refl,
            ))
          (λ i p. let d = (fresh i p).0 in (d.f, IsHead-fact_at store' slot i d, (fresh i p).1))
          h.view in
      let move =
        active-move store.log store.head slot r next here
          (λ i p. let d = is_head i p in (d.r, d.found, d.slot))
          (λ i p. let d = (fresh i p).0 in (d.r, d.found, d.slot)) in
      (view', done, sig ∙ ap (replaced old next) h.agreed, IsView-ext (λ i. sym (move i)) v)

  few-set_head :
      (r : Record) (next : Option RecordId)
      → length (set_head slot next db.store.definitions.head)
        ≤ length (db.store.definitions.log ++ r ∷ [])
  few-set_head r next =
      let few = h.few in
      let le = length-set_head slot db.store.definitions.head next h.heads in
      rw (length-append db.store.definitions.log (r ∷ [])) (omega arith)

  legacy : LegacyDb
  legacy = record {
    store = db.store.definitions;
    view = db.view.indexes;
    next_entity = db.next_entity;
  }

  -- A define returns, keeps the invariant, and pushes the fact on the slot's stack.
  pub define-IsSound :
      (f : Fact)
      → (db' : ForthDb) × (define slot f db ≡ some (length db.store.definitions.log, db'))
        × (db'.next_entity ≡ db.next_entity)
        × IsSound db' (pushed slot f stacks)
  unfolding define append_define Store.append_define define_record set_head legacy
  define-IsSound f =
      let store = db.store.definitions in
      let n = length store.log in
      let r = define_record n slot f (get slot store.head) in
      let histories = (Store.append_define slot f store).1.slot_history in
      let (view', done, sig, v) =
        moved-Moves r (some n) histories refl
          (appended-fresh slot legacy r f histories refl refl) in
      (
        record {
          store = (append_define slot f db.store).1;
          view = view';
          next_entity = db.next_entity;
        },
        rw done refl,
        refl,
        record {
          represents = append_define-Represents slot f store stacks h.represents;
          view = v;
          heads = set_head-IsMap slot (some n) store.head h.heads;
          count = replaced-count slot store.head (some n) db.store.active_signature h.heads h.count;
          few = few-set_head r (some n);
          agreed = sig;
        },
      )

  -- A forget returns, keeps the invariant, and pops the slot's stack.
  pub forget-IsSound :
      (db' : ForthDb) × (forget slot db ≡ some (length db.store.definitions.log, db'))
      × (db'.next_entity ≡ db.next_entity)
      × IsSound db' (popped slot stacks)
  unfolding forget append_forget forget_record legacy
  forget-IsSound =
      let store = db.store.definitions in
      let (revealed, e, appended, represents) =
        append_forget-Represents slot store stacks h.represents in
      let r = forget_record (length store.log) slot (get slot store.head) revealed in
      let histories = (forget_to slot revealed store).1.slot_history in
      let (view', done, sig, v) =
        moved-Moves r revealed histories refl
          (revealed-fresh slot legacy stacks r revealed histories h.represents e) in
      (
        record {
          store = record {
            definitions = (forget_to slot revealed store).1;
            active_signature = replaced (get slot store.head) revealed db.store.active_signature;
          };
          view = view';
          next_entity = db.next_entity;
        },
        rw (appended, done) refl,
        refl,
        record {
          represents = represents;
          view = v;
          heads = set_head-IsMap slot revealed store.head h.heads;
          count = replaced-count slot store.head revealed db.store.active_signature h.heads h.count;
          few = few-set_head r revealed;
          agreed = sig;
        },
      )

pub validate-eq : (db : ForthDb) (stacks : Stacks) → IsSound db stacks → validate db ≡ true
unfolding validate store_valid
validate-eq db stacks h =
    rw
      (
        h.agreed,
        h.count,
        ==_refl (length db.store.definitions.head),
        ==_refl db.store.active_signature.xor,
        ==_refl db.store.active_signature.sum,
        ltb-false (length db.store.definitions.log) (length db.store.definitions.head) h.few,
      )
      refl
