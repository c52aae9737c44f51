-- ===== src/Kernel/View/Candidates.antt =====
-- What `candidates` returns: the active definitions that agree with the resolved parts of a
-- pattern, in the order of their ids.
use forthdb.Prelude.{
  ◌≡◌, refl, sym, ap, ◌∙◌, inl, inr, Option, none, some, List, [], ◌∷◌, ◌++◌, Bool, true, false,
  ◌&&◌, ◌||◌, arith, Bool-cases, Option-cases, get_elem?,
}
use forthdb.Prelude.Map.{get, values, IsMap, get-contains, contains-get}
use forthdb.Prelude.IdSet.{
  contains, collect, IsSorted, sort_unstable, sort_unstable-IsSorted, collect-IsSorted,
  contains-collect, sets_ext,
}
use forthdb.Prelude.Equality.{
  Equality, same, same_refl, same-eq, nat_equality, pair_equality, list_equality,
}
use forthdb.Kernel.Value.{
  RecordId, SlotId, Atom, Predicate, Fact, Pattern, atom_equality, fact_equality,
}
use forthdb.Kernel.Binding.{Binding}
use forthdb.Kernel.Index.{Index, IsIndexOf, bucket, keyed}
use forthdb.Kernel.Store.{DefinitionStore, active_record_ids}
use forthdb.Kernel.Store.Active.{points, active}
use forthdb.Kernel.View.{
  CurrentView, candidates_for, candidates, flat, validate, resolved_atom, resolved_predicate,
}
use forthdb.Kernel.View.Sound.{IsView}

abbrev pub agrees : {A : Type 0} ⦃e : Equality A⦄ → Option A → A → Bool
agrees none a = true
agrees (some b) a = same b a

-- The fact of a record, if it has one, agrees with the parts that are known.
abbrev pub fits : Option Atom → Option Predicate → Option Atom → Option Fact → Bool
fits s p o none = false
fits s p o (some f) = agrees s f.subject && (agrees p f.predicate && agrees o f.object)

abbrev is_active : Option Fact → Bool
is_active none = false
is_active (some f) = true

-- Every head is an active definition.
abbrev pub HeadsActive : DefinitionStore → Type 0
HeadsActive store =
    (slot : SlotId) (id : RecordId)
    → get slot store.head ≡ some id
    → (f : Fact) × (active store id ≡ some f)

pointed : (ref : Option RecordId) {id : RecordId} → points ref id ≡ true → ref ≡ some id
pointed none p = cc
pointed (some j) {id} p = let eq : id ≡ j = ground arith in ap some (sym eq)

active-head :
    (store : DefinitionStore) (id : RecordId) (f : Fact)
    → active store id ≡ some f
    → (slot : SlotId) × (get slot store.head ≡ some id)
active-head store id f e = elim (Option-cases (get_elem? store.log id)) [
  | inl gone ↦ absurd (ground (arith, gone, e))
  | inr (r, found) ↦ (r.slot, pointed (get r.slot store.head) (ground (arith, found, e)))
]

active_record_ids-active :
    (store : DefinitionStore)
    → IsMap store.head
    → HeadsActive store
    → (id : RecordId) → contains id (active_record_ids store) ≡ is_active (active store id)
unfolding active_record_ids
active_record_ids-active store m h id =
    rw (contains-collect id (values store.head))
      (elim (Bool-cases (contains id (values store.head))) [
        | inl c ↦
            let (slot, found) = contains-get id store.head m c in
            let (f, e) = h slot id found in rw (c, e) refl
        | inr c ↦ elim (Option-cases (active store id)) [
          | inl e ↦ rw (c, e) refl
          | inr (f, e) ↦
              let (slot, found) = active-head store id f e in
              absurd (ground (arith, c, get-contains slot store.head found))
        ]
      ])

module _ {K : Type 0} ⦃e : Equality K⦄ {k : Fact → K} {act : RecordId → Option Fact}
    {index : Index K} where
  bucket-exact :
      (v : IsIndexOf k act index) (key : K) (id : RecordId)
      → contains id (sort_unstable (bucket key index)) ≡ keyed k key (act id)
  bucket-exact v key id =
      rw (sort_unstable-IsSorted (bucket key index) (v.sorted key)) (v.members key id)

  bucket-IsSorted :
      (v : IsIndexOf k act index) (key : K) → IsSorted (sort_unstable (bucket key index))
  bucket-IsSorted v key =
      rw (sort_unstable-IsSorted (bucket key index) (v.sorted key)) (v.sorted key)

candidates_for-exact :
    (s : Option Atom) (p : Option Predicate) (o : Option Atom) (view : CurrentView)
    (store : DefinitionStore)
    → IsView (active store) view
    → IsMap store.head
    → HeadsActive store
    → (id : RecordId) → contains id (candidates_for s p o view store) ≡ fits s p o (active store id)
unfolding candidates_for
candidates_for-exact (some s) (some p) (some o) view store v m h id =
    rw (bucket-exact v.exact (record { subject = s; predicate = p; object = o }) id) (ground arith)
candidates_for-exact (some s) (some p) none view store v m h id =
    rw (bucket-exact v.subject_predicate (s, p) id) (ground arith)
candidates_for-exact (some s) none (some o) view store v m h id =
    rw (bucket-exact v.subject_object (s, o) id) (ground arith)
candidates_for-exact none (some p) (some o) view store v m h id =
    rw (bucket-exact v.predicate_object (p, o) id) (ground arith)
candidates_for-exact (some s) none none view store v m h id =
    rw (bucket-exact v.subject s id) (ground arith)
candidates_for-exact none (some p) none view store v m h id =
    rw (bucket-exact v.predicate p id) (ground arith)
candidates_for-exact none none (some o) view store v m h id =
    rw (bucket-exact v.object o id) (ground arith)
candidates_for-exact none none none view store v m h id =
    rw (active_record_ids-active store m h id) (ground arith)

candidates_for-IsSorted :
    (s : Option Atom) (p : Option Predicate) (o : Option Atom) (view : CurrentView)
    (store : DefinitionStore)
    → IsView (active store) view
    → IsSorted (candidates_for s p o view store)
unfolding candidates_for active_record_ids
candidates_for-IsSorted (some s) (some p) (some o) view store v = bucket-IsSorted v.exact _
candidates_for-IsSorted (some s) (some p) none view store v = bucket-IsSorted v.subject_predicate _
candidates_for-IsSorted (some s) none (some o) view store v = bucket-IsSorted v.subject_object _
candidates_for-IsSorted none (some p) (some o) view store v = bucket-IsSorted v.predicate_object _
candidates_for-IsSorted (some s) none none view store v = bucket-IsSorted v.subject _
candidates_for-IsSorted none (some p) none view store v = bucket-IsSorted v.predicate _
candidates_for-IsSorted none none (some o) view store v = bucket-IsSorted v.object _
candidates_for-IsSorted none none none view store v = collect-IsSorted (values store.head)

-- The ids are strictly sorted, and exactly those of the active definitions that fit.
pub record IsExact (ids : List RecordId) (good : Option Fact → Bool) (store : DefinitionStore)
    : Type 0 where
  pub sorted : IsSorted ids
  pub members : (id : RecordId) → contains id ids ≡ good (active store id)

pub candidates-IsExact :
    (pattern : Pattern) (binding : Binding) (store : DefinitionStore) (view : CurrentView)
    → IsView (active store) view
    → IsMap store.head
    → HeadsActive store
    → IsExact
        (candidates pattern binding store view)
        (fits
          (resolved_atom pattern.subject binding)
          (resolved_predicate pattern.predicate binding)
          (resolved_atom pattern.object binding))
        store
unfolding candidates
candidates-IsExact pattern binding store view v m h = record {
  sorted = candidates_for-IsSorted _ _ _ view store v;
  members = candidates_for-exact _ _ _ view store v m h;
}

-- The indexes match the heads, so that `validate` finds nothing wrong.
contains-append :
    (id : RecordId) (xs ys : List RecordId)
    → contains id (xs ++ ys) ≡ (contains id xs || contains id ys)
unfolding contains
contains-append id [] ys = refl
contains-append id (x ∷ xs) ys = ground (arith, contains-append id xs ys)

module _ {K : Type 0} ⦃e : Equality K⦄ where
  contains-flat :
      (id : RecordId) (index : Index K) (key : K)
      → contains id (bucket key index) ≡ true
      → contains id (flat (values index)) ≡ true
  unfolding flat get contains
  contains-flat id [] key c = cc
  contains-flat id ((j, ids) ∷ index) key c = elim (Bool-cases (same key j)) [
    | inl p ↦ ground (arith, contains-append id ids (flat (values index)))
    | inr p ↦
        ground (arith, contains-append id ids (flat (values index)), contains-flat id index key)
  ]

  flat-contains :
      (id : RecordId) (index : Index K)
      → IsMap index
      → contains id (flat (values index)) ≡ true
      → (key : K) × (contains id (bucket key index) ≡ true)
  unfolding flat get contains
  flat-contains id [] m c = cc
  flat-contains id ((j, ids) ∷ index) (new, m) c = elim (Bool-cases (contains id ids)) [
    | inl p ↦ (j, rw (same_refl j) p)
    | inr p ↦
        let (key, found) =
          flat-contains id index m
            (ground (arith, contains-append id ids (flat (values index)), p)) in
        (
          key,
          elim (Bool-cases (same key j)) [
            | inl q ↦
                let empty = ap (λ k. contains id (bucket k index)) (same-eq key j q) in
                absurd (ground (arith, new, empty, found))
            | inr q ↦ rw q found
          ],
        )
  ]

index-active :
    (view : CurrentView) (store : DefinitionStore)
    → IsView (active store) view
    → (id : RecordId)
    → contains id (collect (flat (values view.by_subject_predicate))) ≡ is_active (active store id)
index-active view store v id =
    let index = view.by_subject_predicate in
    rw (contains-collect id (flat (values index)))
      (elim (Bool-cases (contains id (flat (values index)))) [
        | inl c ↦
            let (key, found) = flat-contains id index v.subject_predicate.single c in
            ground (arith, c, found, v.subject_predicate.members key id)
        | inr c ↦ elim (Option-cases (active store id)) [
          | inl e ↦ rw (c, e) refl
          | inr (f, e) ↦
              let key : Atom × Predicate = (f.subject, f.predicate) in
              let here : contains id (bucket key index) ≡ true =
                v.subject_predicate.members key id ∙ rw e (same_refl key) in
              absurd (ground (arith, c, contains-flat id index key here))
        ]
      ])

pub validate-true :
    (view : CurrentView) (store : DefinitionStore)
    → IsView (active store) view
    → IsMap store.head
    → HeadsActive store
    → validate store view ≡ true
unfolding validate active_record_ids
validate-true view store v m h =
    let indexed = collect (flat (values view.by_subject_predicate)) in
    let eq : active_record_ids store ≡ indexed =
      sets_ext (active_record_ids store) indexed (collect-IsSorted (values store.head))
        (collect-IsSorted (flat (values view.by_subject_predicate)))
        (λ id. active_record_ids-active store m h id ∙ sym (index-active view store v id)) in
    rw eq (same_refl indexed)
