-- ===== src/Kernel/Tests.antt =====
-- The kernel on a small library: a work, its copy and a shelf.
use forthdb.Kernel.Query.Limit.{query_limit}
use forthdb.Prelude.{
  ℕ, length, ◌≤◌, ◌≡◌, refl, Option, none, some, List, [], ◌∷◌, true, false, arith,
}
use forthdb.Prelude.Map.{get, insert, remove}
use forthdb.Kernel.Value.{
  Text, SlotId, RecordId, Atom, Term, PredicateTerm, Fact, Pattern, BoundValue, bound_of, as_atom,
  as_predicate,
}
use forthdb.Kernel.Binding.{Binding, bind}
use forthdb.Kernel.Unify.{
  unify_pattern, unify_term, unify_predicate, unify_variable, Matches, Extends, Extends-refl,
}
use forthdb.Kernel.Unify.Least.{unify_pattern-Matches, unify_pattern-least}
use forthdb.Kernel.Store.{append_define, define_record, append_forget, revealed_by, set_head}
use forthdb.Kernel.Store.Stacks.{no_facts}
use forthdb.Kernel.Store.History.{of_slot}
use forthdb.Kernel.View
use forthdb.Kernel.View.Candidates.{IsExact, fits}
use forthdb.Kernel.Db
use forthdb.Kernel.Db.{ForthDb, new, remove_head, add_head, definitions, resolve, history, validate}
use forthdb.Kernel.Db.Sound.{new-IsSound}
use forthdb.Kernel.Db.Runs.{
  Op, run, stacks_after, top, definitions-run, history-run, validate-run, candidates-run,
}
use forthdb.Kernel.Query.{QueryOptions, QueryResult, query}
use forthdb.Kernel.Query.Spec.{All, Any, AllHold}
use forthdb.Kernel.Query.Rows.{query_sound, query_complete}
use forthdb.Kernel.Symbols.{
  display_slot, bind_symbol, resolve_symbol, resolve_symbol-bind_symbol, display_slot-injective,
}

abbrev has_copy : Text
has_copy = b'h' ∷ []

abbrev located_at : Text
located_at = b'l' ∷ []

abbrev copy_of : ℕ → ℕ → Fact
copy_of work copy = record {
  subject = Atom.entity work;
  predicate = has_copy;
  object = Atom.entity copy;
}

abbrev shelf_of : ℕ → ℕ → Fact
shelf_of copy shelf = record {
  subject = Atom.entity copy;
  predicate = located_at;
  object = Atom.entity shelf;
}

abbrev copies : SlotId
copies = b'a' ∷ []

abbrev places : SlotId
places = b'b' ∷ []

-- The copy moves to a shelf and back.
abbrev ops : List Op
ops =
    Op.define copies (copy_of 1 2)
    ∷ Op.define places (shelf_of 2 3)
    ∷ Op.define places (shelf_of 2 4)
    ∷ Op.forget places
    ∷ []

abbrev db_of : Option ForthDb → ForthDb
db_of none = new
db_of (some db) = db

abbrev library : ForthDb
library = db_of (run ops new)

-- Where are the copies of work 1?
abbrev question : List Pattern
question =
    (record {
      subject = Term.atom (Atom.entity 1);
      predicate = PredicateTerm.predicate has_copy;
      object = Term.variable (b'c' ∷ []);
    })
    ∷ (record {
      subject = Term.variable (b'c' ∷ []);
      predicate = PredicateTerm.predicate located_at;
      object = Term.variable (b's' ∷ []);
    })
    ∷ []

abbrev options : QueryOptions
options = record { optimize = true; distinct = true; include_provenance = false; limit = none }

abbrev answer : Binding
answer = (b'c' ∷ [], BoundValue.entity 2) ∷ (b's' ∷ [], BoundValue.entity 3) ∷ []

library-made : run ops new ≡ some library
unfolding run Db.define remove_head get View.add append_define define_record insert remove
    View.remove Db.forget append_forget revealed_by add_head
library-made = refl

copy_holds : AllHold library.store question answer
unfolding run Db.define remove_head get View.add append_define define_record insert remove
    View.remove Db.forget append_forget revealed_by add_head set_head bound_of
copy_holds = (
  record {
    id = 0;
    fact = copy_of 1 2;
    active = refl;
    matches = record { subject = refl; predicate = refl; object = refl };
  },
  (
    record {
      id = 1;
      fact = shelf_of 2 3;
      active = refl;
      matches = record { subject = refl; predicate = refl; object = refl };
    },
    tt,
  ),
)

definitions-run_example :
    (db : ForthDb) × (run ops new ≡ some db)
    × (definitions places db ≡ some (stacks_after ops no_facts places))
    × (resolve places db ≡ some (top (stacks_after ops no_facts places)))
definitions-run_example = definitions-run ops places

history-run_example :
    (db : ForthDb) × (run ops new ≡ some db)
    × (history places db ≡ some (of_slot places db.store.log))
history-run_example = history-run ops places

validate-run_example : (db : ForthDb) × (run ops new ≡ some db) × (validate db ≡ some true)
validate-run_example = validate-run ops

abbrev copies_of_work : Pattern
copies_of_work = record {
  subject = Term.atom (Atom.entity 1);
  predicate = PredicateTerm.predicate has_copy;
  object = Term.variable (b'c' ∷ []);
}

candidates-run_example :
    (db : ForthDb) × (run ops new ≡ some db)
    × IsExact
        (View.candidates copies_of_work [] db.store db.view)
        (fits
          (View.resolved_atom copies_of_work.subject [])
          (View.resolved_predicate copies_of_work.predicate [])
          (View.resolved_atom copies_of_work.object []))
        db.store
candidates-run_example = candidates-run ops copies_of_work []

query_sound_example :
    (result : QueryResult) × (query question options library ≡ some result)
    × All (λ row. AllHold library.store question row.binding) result.rows
query_sound_example = query_sound ops library question options library-made refl

query_complete_example :
    (result : QueryResult) × (query question options library ≡ some result)
    × Any (λ row. Extends row.binding answer) result.rows
query_complete_example =
    query_complete ops library question options answer library-made refl copy_holds

copy_bound :
    unify_pattern copies_of_work (copy_of 1 2) [] ≡ some ((b'c' ∷ [], BoundValue.entity 2) ∷ [])
unfolding unify_pattern unify_term as_atom bound_of unify_predicate as_predicate unify_variable get
    bind
copy_bound = refl

unify_pattern-Matches_example :
    Extends [] ((b'c' ∷ [], BoundValue.entity 2) ∷ [])
    × Matches copies_of_work (copy_of 1 2) ((b'c' ∷ [], BoundValue.entity 2) ∷ [])
unify_pattern-Matches_example = unify_pattern-Matches copies_of_work (copy_of 1 2) [] copy_bound

copy-Matches : Matches copies_of_work (copy_of 1 2) answer
unfolding get bound_of
copy-Matches = record { subject = refl; predicate = refl; object = refl }

unify_pattern-least_example :
    (c : Binding) × (unify_pattern copies_of_work (copy_of 1 2) answer ≡ some c) × Extends c answer
unify_pattern-least_example =
    unify_pattern-least copies_of_work (copy_of 1 2) answer answer (Extends-refl answer)
      copy-Matches

resolve_symbol-bind_symbol_example :
    (id : RecordId) × (db' : ForthDb) × (bind_symbol places copies 5 new ≡ some (id, db'))
    × (resolve_symbol places copies db' ≡ some (some 5))
resolve_symbol-bind_symbol_example =
    resolve_symbol-bind_symbol places copies 5 new no_facts new-IsSound

same_display : display_slot 12 ≡ display_slot 12
same_display = refl

display_slot-injective_example : ◌≡◌ {A = ℕ} 12 12
display_slot-injective_example =
    display_slot-injective 12 12 (omega arith) (omega arith) same_display

abbrev one_answer : QueryOptions
one_answer = record { optimize = false; distinct = true; include_provenance = true; limit = some 1 }

query_limit_example :
    (result : QueryResult) × (query question one_answer library ≡ some result)
    × (length result.rows ≤ 1)
query_limit_example = query_limit ops library question one_answer 1 library-made refl (omega arith)
