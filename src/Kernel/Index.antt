-- ===== src/Kernel/Index.antt =====
-- forthdb-core/src/lib.rs: `insert_index` and `remove_index`, on an index from keys to record ids.
use forthdb.Prelude.{
  ◌≡◌, refl, ◌∙◌, inl, inr, Bool, false, Option, none, some, [], ◌∷◌, arith, ◌==◌, if◌then◌else◌,
  Bool-cases, Option-cases, ==_refl,
}
use forthdb.Prelude.Map
use forthdb.Prelude.IdSet
use forthdb.Prelude.Map.{Map, IsMap, values, get-insert, get-remove, insert-IsMap, remove-IsMap}
use forthdb.Prelude.IdSet.{
  IdSet, contains, IsSorted, contains-insert, contains-remove, insert-IsSorted, remove-IsSorted,
}
use forthdb.Prelude.Equality.{Equality, same, same-eq}
use forthdb.Kernel.Value.{RecordId, Fact}

abbrev pub Index : Type 0 → Type 0
Index K = Map K IdSet

abbrev pub or_empty : Option IdSet → IdSet
or_empty none = []
or_empty (some ids) = ids

module _ {K : Type 0} ⦃e : Equality K⦄ where
  -- `index.get(key).into_iter().flatten()`
  abbrev pub bucket : K → Index K → IdSet
  bucket key index = or_empty (Map.get key index)

  -- `index.entry(key).or_default().insert(record_id)`
  unfoldable pub insert_index : K → RecordId → Index K → Index K
  insert_index key id index = Map.insert key (IdSet.insert id (bucket key index)) index

  -- A bucket that becomes empty is removed.
  abbrev pub put_bucket : K → IdSet → Index K → Index K
  put_bucket key [] index = Map.remove key index
  put_bucket key (id ∷ ids) index = Map.insert key (id ∷ ids) index

  abbrev pub remove_from : Option IdSet → K → RecordId → Index K → Index K
  remove_from none key id index = index
  remove_from (some ids) key id index = put_bucket key (IdSet.remove id ids) index

  unfoldable pub remove_index : K → RecordId → Index K → Index K
  remove_index key id index = remove_from (Map.get key index) key id index

  put_bucket-get :
      (key j : K) (ids : IdSet) (index : Index K)
      → bucket key (put_bucket j ids index) ≡ (if same key j then ids else bucket key index)
  put_bucket-get key j [] index = rw (get-remove key j index) (ground arith)
  put_bucket-get key j (id ∷ ids) index = rw (get-insert key j (id ∷ ids) index) (ground arith)

  pub bucket-insert_index :
      (key j : K) (i : RecordId) (index : Index K)
      → bucket key (insert_index j i index)
        ≡ (if same key j then IdSet.insert i (bucket key index) else bucket key index)
  unfolding insert_index
  bucket-insert_index key j i index = elim (Bool-cases (same key j)) [
    | inl p ↦ rw (get-insert key j (IdSet.insert i (bucket j index)) index, p, same-eq key j p) refl
    | inr p ↦ rw (get-insert key j (IdSet.insert i (bucket j index)) index, p) refl
  ]

  put_bucket-IsMap :
      (j : K) (ids : IdSet) (index : Index K) → IsMap index → IsMap (put_bucket j ids index)
  put_bucket-IsMap j [] index h = remove-IsMap j index h
  put_bucket-IsMap j (id ∷ ids) index h = insert-IsMap j (id ∷ ids) index h

  missing :
      (key j : K) (i : RecordId) (index : Index K)
      → Map.get j index ≡ none
      → (if same key j then IdSet.remove i (bucket key index) else bucket key index)
        ≡ bucket key index
  unfolding IdSet.remove
  missing key j i index e = elim (Bool-cases (same key j)) [
    | inl p ↦ rw (p, same-eq key j p, e) refl
    | inr p ↦ rw p refl
  ]

  present :
      (key j : K) (i : RecordId) (ids : IdSet) (index : Index K)
      → Map.get j index ≡ some ids
      → (if same key j then IdSet.remove i ids else bucket key index)
        ≡ (if same key j then IdSet.remove i (bucket key index) else bucket key index)
  present key j i ids index e = elim (Bool-cases (same key j)) [
    | inl p ↦ rw (p, same-eq key j p, e) refl
    | inr p ↦ rw p refl
  ]

  pub bucket-remove_index :
      (key j : K) (i : RecordId) (index : Index K)
      → bucket key (remove_index j i index)
        ≡ (if same key j then IdSet.remove i (bucket key index) else bucket key index)
  unfolding remove_index
  bucket-remove_index key j i index = elim (Option-cases (Map.get j index)) [
    | inl e ↦ rw (e, missing key j i index e) refl
    | inr (ids, e) ↦
        rw e (put_bucket-get key j (IdSet.remove i ids) index ∙ present key j i ids index e)
  ]

  remove_index-IsMap :
      (j : K) (i : RecordId) (index : Index K) → IsMap index → IsMap (remove_index j i index)
  unfolding remove_index
  remove_index-IsMap j i index h = elim (Option-cases (Map.get j index)) [
    | inl e ↦ rw e h
    | inr (ids, e) ↦ rw e (put_bucket-IsMap j (IdSet.remove i ids) index h)
  ]

  -- Which facts the records have that an index is about.
  abbrev pub keyed : (Fact → K) → K → Option Fact → Bool
  keyed k key none = false
  keyed k key (some f) = same key (k f)

  -- An index by `k` of the records that `active` gives a fact.
  pub record IsIndexOf (k : Fact → K) (active : RecordId → Option Fact) (index : Index K)
      : Type 0 where
    pub members :
        (key : K) (id : RecordId) → contains id (bucket key index) ≡ keyed k key (active id)
    pub sorted : (key : K) → IsSorted (bucket key index)
    pub single : IsMap index

abbrev pub updated : RecordId → Option Fact → (RecordId → Option Fact) → RecordId → Option Fact
updated i fact active j = if j == i then fact else active j

module _ {K : Type 0} ⦃e : Equality K⦄ (k : Fact → K) where
  pub empty-IsIndexOf : IsIndexOf k (λ _. none) []
  unfolding Map.get contains
  empty-IsIndexOf = record { members = λ key id. refl; sorted = λ key. tt; single = tt }

  pub IsIndexOf-ext :
      {active active' : RecordId → Option Fact} {index : Index K}
      → ((id : RecordId) → active id ≡ active' id)
      → IsIndexOf k active index
      → IsIndexOf k active' index
  IsIndexOf-ext eq h = record {
    members = λ key id. rw (← eq id) (h.members key id);
    sorted = h.sorted;
    single = h.single;
  }

  pub insert_index-IsIndexOf :
      {active : RecordId → Option Fact} {index : Index K} (i : RecordId) (f : Fact)
      → active i ≡ none
      → IsIndexOf k active index
      → IsIndexOf k (updated i (some f) active) (insert_index (k f) i index)
  unfolding insert_index
  insert_index-IsIndexOf {active} {index} i f new h = record {
    members = λ key id. rw (bucket-insert_index key (k f) i index) (elim (Bool-cases (id == i)) [
      | inl p ↦
          let eq : id ≡ i = ground arith in
          rw (p, eq)
            (ground
              (arith, contains-insert i i (bucket key index), ==_refl i, h.members key i, new))
      | inr p ↦ rw p (ground (arith, contains-insert id i (bucket key index), h.members key id))
    ]);
    sorted = λ key.
        rw (bucket-insert_index key (k f) i index)
          (ground (arith, insert-IsSorted i (bucket key index) (h.sorted key), h.sorted key));
    single = insert-IsMap (k f) (IdSet.insert i (bucket (k f) index)) index h.single;
  }

  pub remove_index-IsIndexOf :
      {active : RecordId → Option Fact} {index : Index K} (i : RecordId) (f : Fact)
      → active i ≡ some f
      → IsIndexOf k active index
      → IsIndexOf k (updated i none active) (remove_index (k f) i index)
  remove_index-IsIndexOf {active} {index} i f old h = record {
    members = λ key id. rw (bucket-remove_index key (k f) i index) (elim (Bool-cases (id == i)) [
      | inl p ↦
          let eq : id ≡ i = ground arith in
          rw (p, eq)
            (ground
              (arith, contains-remove i i (bucket key index), ==_refl i, h.members key i, old))
      | inr p ↦ rw p (ground (arith, contains-remove id i (bucket key index), h.members key id))
    ]);
    sorted = λ key.
        rw (bucket-remove_index key (k f) i index)
          (ground (arith, remove-IsSorted i (bucket key index) (h.sorted key), h.sorted key));
    single = remove_index-IsMap (k f) i index h.single;
  }
