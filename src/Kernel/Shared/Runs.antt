-- ===== src/Kernel/Shared/Runs.antt =====
-- shared_db_v2.rs: the operations of the database in any order, from an empty one.
use mathlib.Core.Option
use forthdb.Prelude.{◌≡◌, refl, Option, some, List, [], ◌∷◌, true}
use forthdb.Prelude.Equality.{list_equality}
use forthdb.Kernel.Value.{Pattern}
use forthdb.Kernel.Binding.{Binding}
use forthdb.Kernel.Store.Stacks.{Stacks, no_facts}
use forthdb.Kernel.View
use forthdb.Kernel.View.Candidates.{IsExact, fits, candidates-IsExact}
use forthdb.Kernel.Db.{bind_option}
use forthdb.Kernel.Db.Steps.{head_active}
use forthdb.Kernel.Db.Runs.{Op, effect, stacks_after}
use forthdb.Kernel.Shared.{ForthDb, new, entity, validate}
use forthdb.Kernel.Shared
use forthdb.Kernel.Shared.Sound.{
  IsSound, new-IsSound, entity-IsSound, define-IsSound, forget-IsSound, validate-eq,
}

abbrev apply : Op → ForthDb → Option ForthDb
apply Op.allocate db = some (entity db).1
apply (Op.define slot fact) db = Option.map (λ result. result.1) (Shared.define slot fact db)
apply (Op.forget slot) db = Option.map (λ result. result.1) (Shared.forget slot db)

unfoldable pub run : List Op → ForthDb → Option ForthDb
run [] db = some db
run (op ∷ ops) db = bind_option (apply op db) (run ops)

apply-IsSound :
    (op : Op) (db : ForthDb) (stacks : Stacks)
    → IsSound db stacks
    → (db' : ForthDb) × (apply op db ≡ some db') × IsSound db' (effect op stacks)
apply-IsSound Op.allocate db stacks h = (_, refl, entity-IsSound db stacks h)
apply-IsSound (Op.define slot fact) db stacks h =
    let (db', e, _, h') = define-IsSound slot db stacks h fact in (db', rw e refl, h')
apply-IsSound (Op.forget slot) db stacks h =
    let (db', e, _, h') = forget-IsSound slot db stacks h in (db', rw e refl, h')

run-IsSound :
    (ops : List Op) (db : ForthDb) (stacks : Stacks)
    → IsSound db stacks
    → (db' : ForthDb) × (run ops db ≡ some db') × IsSound db' (stacks_after ops stacks)
unfolding run stacks_after
run-IsSound [] db stacks h = (db, refl, h)
run-IsSound (op ∷ ops) db stacks h =
    let (db', e, h') = apply-IsSound op db stacks h in
    let (db'', e', h'') = run-IsSound ops db' (effect op stacks) h' in (db'', rw (e, e') refl, h'')

-- No sequence of operations on an empty database panics, and the database it makes is valid by its
-- signatures. The indexes give a pattern exactly the ids, strictly sorted, of the active definitions
-- that agree with its parts that are bound.
pub run-Valid :
    (ops : List Op) (pattern : Pattern) (binding : Binding)
    → (db : ForthDb) × (run ops new ≡ some db)
      × (validate db ≡ true)
      × IsExact
          (View.candidates pattern binding db.store.definitions db.view.indexes)
          (fits
            (View.resolved_atom pattern.subject binding)
            (View.resolved_predicate pattern.predicate binding)
            (View.resolved_atom pattern.object binding))
          db.store.definitions
run-Valid ops pattern binding =
    let (db, e, h) = run-IsSound ops new no_facts new-IsSound in
    (
      db,
      e,
      validate-eq db _ h,
      candidates-IsExact pattern binding db.store.definitions db.view.indexes h.view h.heads
          (head_active db.store.definitions _ h.represents),
    )
