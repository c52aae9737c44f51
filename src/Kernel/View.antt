-- ===== src/Kernel/View.antt =====
-- forthdb-core/src/lib.rs: `CurrentView`, the indexes of the definitions that are slot heads.
-- `none` is a panic of the call.
pub mod Sound
pub mod Candidates
use mathlib.Core.Option
use forthdb.Prelude.{ℕ, Bool, true, false, Option, none, some, List, [], ◌∷◌, ◌++◌, if◌then◌else◌}
use forthdb.Prelude.Map.{Map, get, values}
use forthdb.Prelude.IdSet.{IdSet, collect, sort_unstable}
use forthdb.Prelude.Equality.{Equality, same, nat_equality, pair_equality, list_equality}
use forthdb.Kernel.Value.{
  RecordId, Atom, Term, Predicate, PredicateTerm, Fact, Pattern, as_atom, as_predicate,
  atom_equality, fact_equality, BoundValue,
}
use forthdb.Kernel.Binding.{Binding}
use forthdb.Kernel.Index.{Index, insert_index, remove_index, bucket}
use forthdb.Kernel.Store.{DefinitionStore, fact_at, active_record_ids}

pub record CurrentView : Type 0 where
  pub by_subject : Index Atom
  pub by_predicate : Index Predicate
  pub by_object : Index Atom
  pub by_subject_predicate : Index (Atom × Predicate)
  pub by_subject_object : Index (Atom × Atom)
  pub by_predicate_object : Index (Predicate × Atom)
  pub by_exact : Index Fact

abbrev pub empty_view : CurrentView
empty_view = record {
  by_subject = [];
  by_predicate = [];
  by_object = [];
  by_subject_predicate = [];
  by_subject_object = [];
  by_predicate_object = [];
  by_exact = [];
}

unfoldable pub add_fact : RecordId → CurrentView → Fact → CurrentView
add_fact id view fact = record {
  by_subject = insert_index fact.subject id view.by_subject;
  by_predicate = insert_index fact.predicate id view.by_predicate;
  by_object = insert_index fact.object id view.by_object;
  by_subject_predicate = insert_index (fact.subject, fact.predicate) id view.by_subject_predicate;
  by_subject_object = insert_index (fact.subject, fact.object) id view.by_subject_object;
  by_predicate_object = insert_index (fact.predicate, fact.object) id view.by_predicate_object;
  by_exact = insert_index fact id view.by_exact;
}

unfoldable pub add : RecordId → DefinitionStore → CurrentView → Option CurrentView
add id store view = Option.map (add_fact id view) (fact_at id store)

unfoldable pub remove_fact : RecordId → CurrentView → Fact → CurrentView
remove_fact id view fact = record {
  by_subject = remove_index fact.subject id view.by_subject;
  by_predicate = remove_index fact.predicate id view.by_predicate;
  by_object = remove_index fact.object id view.by_object;
  by_subject_predicate = remove_index (fact.subject, fact.predicate) id view.by_subject_predicate;
  by_subject_object = remove_index (fact.subject, fact.object) id view.by_subject_object;
  by_predicate_object = remove_index (fact.predicate, fact.object) id view.by_predicate_object;
  by_exact = remove_index fact id view.by_exact;
}

unfoldable pub remove : RecordId → DefinitionStore → CurrentView → Option CurrentView
remove id store view = Option.map (remove_fact id view) (fact_at id store)

abbrev atom_of : Option BoundValue → Option Atom
atom_of none = none
atom_of (some value) = as_atom value

unfoldable pub resolved_atom : Term → Binding → Option Atom
resolved_atom (Term.atom a) binding = some a
resolved_atom (Term.variable name) binding = atom_of (get name binding)

abbrev predicate_of : Option BoundValue → Option Predicate
predicate_of none = none
predicate_of (some value) = as_predicate value

unfoldable pub resolved_predicate : PredicateTerm → Binding → Option Predicate
resolved_predicate (PredicateTerm.predicate p) binding = some p
resolved_predicate (PredicateTerm.variable name) binding = predicate_of (get name binding)

-- The match on the resolved parts. The buckets are sorted, the active ids are already.
unfoldable pub candidates_for :
    Option Atom → Option Predicate → Option Atom → CurrentView → DefinitionStore → List RecordId
candidates_for (some s) (some p) (some o) view store =
    sort_unstable (bucket (record { subject = s; predicate = p; object = o }) view.by_exact)
candidates_for (some s) (some p) none view store =
    sort_unstable (bucket (s, p) view.by_subject_predicate)
candidates_for (some s) none (some o) view store =
    sort_unstable (bucket (s, o) view.by_subject_object)
candidates_for none (some p) (some o) view store =
    sort_unstable (bucket (p, o) view.by_predicate_object)
candidates_for (some s) none none view store = sort_unstable (bucket s view.by_subject)
candidates_for none (some p) none view store = sort_unstable (bucket p view.by_predicate)
candidates_for none none (some o) view store = sort_unstable (bucket o view.by_object)
candidates_for none none none view store = active_record_ids store

unfoldable pub candidates : Pattern → Binding → DefinitionStore → CurrentView → List RecordId
candidates pattern binding store view =
    candidates_for (resolved_atom pattern.subject binding)
      (resolved_predicate pattern.predicate binding) (resolved_atom pattern.object binding) view
      store

-- `values().flat_map(...)`
unfoldable pub flat : List IdSet → List RecordId
flat [] = []
flat (ids ∷ rest) = ids ++ flat rest

-- `Ok(())` as true.
unfoldable pub validate : DefinitionStore → CurrentView → Bool
validate store view =
    same (active_record_ids store) (collect (flat (values view.by_subject_predicate)))
