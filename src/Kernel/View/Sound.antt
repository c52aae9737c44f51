-- ===== src/Kernel/View/Sound.antt =====
-- The seven indexes of a view against the active definitions.

use forthdb.Prelude.{◌≡◌, refl, Option, none, some}
use forthdb.Prelude.Equality.{nat_equality, pair_equality, list_equality}
use forthdb.Kernel.Value.{RecordId, Fact, atom_equality, fact_equality}
use forthdb.Kernel.Index.{
  IsIndexOf, IsIndexOf-ext, empty-IsIndexOf, insert_index-IsIndexOf, remove_index-IsIndexOf,
  updated,
}
use forthdb.Kernel.Store.{DefinitionStore, fact_at}
use forthdb.Kernel.View.{CurrentView, empty_view, add, add_fact, remove, remove_fact}

pub record IsView (active : RecordId → Option Fact) (view : CurrentView) : Type 0 where
  pub subject : IsIndexOf (λ f. f.subject) active view.by_subject
  pub predicate : IsIndexOf (λ f. f.predicate) active view.by_predicate
  pub object : IsIndexOf (λ f. f.object) active view.by_object
  pub subject_predicate : IsIndexOf (λ f. (f.subject, f.predicate)) active view.by_subject_predicate
  pub subject_object : IsIndexOf (λ f. (f.subject, f.object)) active view.by_subject_object
  pub predicate_object : IsIndexOf (λ f. (f.predicate, f.object)) active view.by_predicate_object
  pub exact : IsIndexOf (λ f. f) active view.by_exact

pub empty_view-IsView : IsView (λ _. none) empty_view
empty_view-IsView = record {
  subject = empty-IsIndexOf _;
  predicate = empty-IsIndexOf _;
  object = empty-IsIndexOf _;
  subject_predicate = empty-IsIndexOf _;
  subject_object = empty-IsIndexOf _;
  predicate_object = empty-IsIndexOf _;
  exact = empty-IsIndexOf _;
}

pub IsView-ext :
    {active active' : RecordId → Option Fact} {view : CurrentView}
    → ((id : RecordId) → active id ≡ active' id)
    → IsView active view
    → IsView active' view
IsView-ext e v = record {
  subject = IsIndexOf-ext _ e v.subject;
  predicate = IsIndexOf-ext _ e v.predicate;
  object = IsIndexOf-ext _ e v.object;
  subject_predicate = IsIndexOf-ext _ e v.subject_predicate;
  subject_object = IsIndexOf-ext _ e v.subject_object;
  predicate_object = IsIndexOf-ext _ e v.predicate_object;
  exact = IsIndexOf-ext _ e v.exact;
}

pub add_fact-IsView :
    {active : RecordId → Option Fact} {view : CurrentView} (i : RecordId) (f : Fact)
    → active i ≡ none
    → IsView active view
    → IsView (updated i (some f) active) (add_fact i view f)
unfolding add_fact
add_fact-IsView i f new v = record {
  subject = insert_index-IsIndexOf _ i f new v.subject;
  predicate = insert_index-IsIndexOf _ i f new v.predicate;
  object = insert_index-IsIndexOf _ i f new v.object;
  subject_predicate = insert_index-IsIndexOf _ i f new v.subject_predicate;
  subject_object = insert_index-IsIndexOf _ i f new v.subject_object;
  predicate_object = insert_index-IsIndexOf _ i f new v.predicate_object;
  exact = insert_index-IsIndexOf _ i f new v.exact;
}

pub remove_fact-IsView :
    {active : RecordId → Option Fact} {view : CurrentView} (i : RecordId) (f : Fact)
    → active i ≡ some f
    → IsView active view
    → IsView (updated i none active) (remove_fact i view f)
unfolding remove_fact
remove_fact-IsView i f old v = record {
  subject = remove_index-IsIndexOf _ i f old v.subject;
  predicate = remove_index-IsIndexOf _ i f old v.predicate;
  object = remove_index-IsIndexOf _ i f old v.object;
  subject_predicate = remove_index-IsIndexOf _ i f old v.subject_predicate;
  subject_object = remove_index-IsIndexOf _ i f old v.subject_object;
  predicate_object = remove_index-IsIndexOf _ i f old v.predicate_object;
  exact = remove_index-IsIndexOf _ i f old v.exact;
}

-- A record with a fact is added, and the addition does not panic.
pub add-IsView :
    {active : RecordId → Option Fact} (view : CurrentView) (store : DefinitionStore) (i : RecordId)
    (f : Fact)
    → fact_at i store ≡ some f
    → active i ≡ none
    → IsView active view
    → (view' : CurrentView) × (add i store view ≡ some view')
      × IsView (updated i (some f) active) view'
unfolding add
add-IsView view store i f found new v =
    (add_fact i view f, rw found refl, add_fact-IsView i f new v)

pub remove-IsView :
    {active : RecordId → Option Fact} (view : CurrentView) (store : DefinitionStore) (i : RecordId)
    (f : Fact)
    → fact_at i store ≡ some f
    → active i ≡ some f
    → IsView active view
    → (view' : CurrentView) × (remove i store view ≡ some view')
      × IsView (updated i none active) view'
unfolding remove
remove-IsView view store i f found old v =
    (remove_fact i view f, rw found refl, remove_fact-IsView i f old v)
