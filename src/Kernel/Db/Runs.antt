-- ===== src/Kernel/Db/Runs.antt =====
-- The kernel's operations in any order, from an empty database.
use mathlib.Core.Option
use forthdb.Prelude.{
  ℕ, ◌≡◌, refl, ap, Option, none, some, List, [], ◌∷◌, length, true, arith, ==_refl,
}
use forthdb.Prelude.Map.{get, values, contains-get}
use forthdb.Prelude.IdSet.{contains}
use forthdb.Prelude.Equality.{nat_equality, list_equality}
use forthdb.Kernel.Value.{RecordId, SlotId, Fact, Pattern}
use forthdb.Kernel.Binding.{Binding}
use forthdb.Kernel.Store.{DefinitionStore, find_record, find_head, resolve_record}
use forthdb.Kernel.Store.Stacks.{Stacks, no_facts, pushed, popped, Chain, definitions-Represents}
use forthdb.Kernel.Store.History.{of_slot}
use forthdb.Kernel.View
use forthdb.Kernel.View.Candidates.{IsExact, fits, candidates-IsExact, validate-true}
use forthdb.Kernel.Db.{
  ForthDb, new, entity, resolve, definitions, history, validate, bind_option, fact_of_head,
  heads_defined, is_definition,
}
use forthdb.Kernel.Db
use forthdb.Kernel.Db.Sound.{IsSound, new-IsSound, entity-IsSound}
use forthdb.Kernel.Db.Steps.{define-IsSound, forget-IsSound, heads-active}

pub data Op : Type 0 where
  allocate : Op
  define : SlotId → Fact → Op
  forget : SlotId → Op

abbrev pub apply : Op → ForthDb → Option ForthDb
apply Op.allocate db = some (entity db).1
apply (Op.define slot fact) db = Option.map (λ result. result.1) (Db.define slot fact db)
apply (Op.forget slot) db = Option.map (λ result. result.1) (Db.forget slot db)

unfoldable pub run : List Op → ForthDb → Option ForthDb
run [] db = some db
run (op ∷ ops) db = bind_option (apply op db) (run ops)

-- What the operations mean.
abbrev pub effect : Op → Stacks → Stacks
effect Op.allocate stacks = stacks
effect (Op.define slot fact) stacks = pushed slot fact stacks
effect (Op.forget slot) stacks = popped slot stacks

unfoldable pub stacks_after : List Op → Stacks → Stacks
stacks_after [] stacks = stacks
stacks_after (op ∷ ops) stacks = stacks_after ops (effect op stacks)

abbrev pub top : List Fact → Option Fact
top [] = none
top (f ∷ fs) = some f

pub apply-IsSound :
    (op : Op) (db : ForthDb) (stacks : Stacks)
    → IsSound db stacks
    → (db' : ForthDb) × (apply op db ≡ some db') × IsSound db' (effect op stacks)
apply-IsSound Op.allocate db stacks h = ((entity db).1, refl, entity-IsSound db stacks h)
apply-IsSound (Op.define slot fact) db stacks h =
    let (db', e, h') = define-IsSound slot fact db stacks h in (db', rw e refl, h')
apply-IsSound (Op.forget slot) db stacks h =
    let (db', e, h') = forget-IsSound slot db stacks h in (db', rw e refl, h')

-- No sequence of operations panics, and the invariant holds after it.
pub run-IsSound :
    (ops : List Op) (db : ForthDb) (stacks : Stacks)
    → IsSound db stacks
    → (db' : ForthDb) × (run ops db ≡ some db') × IsSound db' (stacks_after ops stacks)
unfolding run stacks_after
run-IsSound [] db stacks h = (db, refl, h)
run-IsSound (op ∷ ops) db stacks h =
    let (db', e, h') = apply-IsSound op db stacks h in
    let (db'', e', h'') = run-IsSound ops db' (effect op stacks) h' in (db'', rw (e, e') refl, h'')

definitions-eq :
    (db : ForthDb) (stacks : Stacks) (slot : SlotId)
    → IsSound db stacks
    → definitions slot db ≡ some (stacks slot)
unfolding definitions
definitions-eq db stacks slot h =
    let (rs, walk, facts) = definitions-Represents db.store stacks slot h.represents in
    rw (walk, facts) refl

top-Chain :
    (store : DefinitionStore) (slot : SlotId) (bound : ℕ) (head : Option RecordId) (fs : List Fact)
    → Chain store.log slot bound head fs
    → fact_of_head (find_head head store) ≡ some (top fs)
top-Chain store slot bound head [] c = rw c refl
top-Chain store slot bound head (f ∷ fs) (id, r, here, below, d, c) =
    rw (here, d.found) (ap some d.fact)

pub resolve-eq :
    (db : ForthDb) (stacks : Stacks) (slot : SlotId)
    → IsSound db stacks
    → resolve slot db ≡ some (top (stacks slot))
unfolding resolve resolve_record
resolve-eq db stacks slot h =
    top-Chain db.store slot (length db.store.log) (get slot db.store.head) (stacks slot)
      (h.represents slot)

head-is_definition :
    (store : DefinitionStore) (slot : SlotId) (bound : ℕ) (head : Option RecordId) (fs : List Fact)
    → Chain store.log slot bound head fs
    → (id : RecordId) → head ≡ some id
    → is_definition (find_record id store) ≡ some true
head-is_definition store slot bound head [] c id e = cc
head-is_definition store slot bound head (f ∷ fs) (i, r, here, below, d, c) id e =
    let eq : i ≡ id = ground (arith, here, e) in rw (← eq, d.found, d.kind, d.fact) refl

heads_defined-true :
    (ids : List RecordId) (store : DefinitionStore)
    → ((id : RecordId) → contains id ids ≡ true → is_definition (find_record id store) ≡ some true)
    → heads_defined ids store ≡ some true
unfolding heads_defined contains
heads_defined-true [] store h = refl
heads_defined-true (id ∷ ids) store h =
    rw
      (
        h id (ground (arith, ==_refl id)),
        heads_defined-true ids store (λ i c. h i (ground (arith, c))),
      )
      refl

pub validate-eq : (db : ForthDb) (stacks : Stacks) → IsSound db stacks → validate db ≡ some true
unfolding validate
validate-eq db stacks h =
    rw
      (
        heads_defined-true (values db.store.head) db.store (λ id c.
            let (slot, found) = contains-get id db.store.head h.heads c in
            head-is_definition db.store slot (length db.store.log) (get slot db.store.head)
              (stacks slot) (h.represents slot) id found),
        validate-true db.view db.store h.view h.heads (heads-active db stacks h),
      )
      refl

-- The database that a sequence of operations makes.
pub record Reached (ops : List Op) : Type 0 where
  pub db : ForthDb
  pub made : run ops new ≡ some db
  pub sound : IsSound db (stacks_after ops no_facts)

pub reach : (ops : List Op) → Reached ops
reach ops =
    let (db, made, sound) = run-IsSound ops new no_facts new-IsSound in
    record { db = db; made = made; sound = sound }

-- After any operations on an empty database, none of which panics, each slot's definitions are
-- what is left of a stack on which each define pushed and each forget popped, and it resolves to
-- the top of that stack.
pub definitions-run :
    (ops : List Op) (slot : SlotId)
    → (db : ForthDb) × (run ops new ≡ some db)
      × (definitions slot db ≡ some (stacks_after ops no_facts slot))
      × (resolve slot db ≡ some (top (stacks_after ops no_facts slot)))
definitions-run ops slot =
    let r = reach ops in
    (
      r.db,
      r.made,
      definitions-eq r.db (stacks_after ops no_facts) slot r.sound,
      resolve-eq r.db (stacks_after ops no_facts) slot r.sound,
    )

-- After any operations on an empty database, a slot's history is its records in the order of the
-- log.
pub history-run :
    (ops : List Op) (slot : SlotId)
    → (db : ForthDb) × (run ops new ≡ some db)
      × (history slot db ≡ some (of_slot slot db.store.log))
unfolding history
history-run ops slot = let r = reach ops in (r.db, r.made, r.sound.history slot)

-- After any operations on an empty database, `validate` accepts it.
pub validate-run :
    (ops : List Op) → (db : ForthDb) × (run ops new ≡ some db) × (validate db ≡ some true)
validate-run ops =
    let r = reach ops in (r.db, r.made, validate-eq r.db (stacks_after ops no_facts) r.sound)

-- After any operations on an empty database, the candidates of a pattern are the ids, strictly
-- sorted, of the active definitions that agree with every part of the pattern which is an atom, a
-- predicate or a bound variable.
pub candidates-run :
    (ops : List Op) (pattern : Pattern) (binding : Binding)
    → (db : ForthDb) × (run ops new ≡ some db)
      × IsExact
          (View.candidates pattern binding db.store db.view)
          (fits
            (View.resolved_atom pattern.subject binding)
            (View.resolved_predicate pattern.predicate binding)
            (View.resolved_atom pattern.object binding))
          db.store
candidates-run ops pattern binding =
    let r = reach ops in
    (
      r.db,
      r.made,
      candidates-IsExact pattern binding r.db.store r.db.view r.sound.view r.sound.heads
          (heads-active r.db (stacks_after ops no_facts) r.sound),
    )
