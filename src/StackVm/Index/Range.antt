-- ===== src/StackVm/Index/Range.antt =====
-- stack_vm.rs: the binary search for a pattern finds what the linear test accepts.
use forthdb.Prelude.{
  ℕ, zero, suc, ◌≡◌, refl, ◌∙◌, ◌&&◌, Bool, true, false, not, some, List, [], ◌∷◌, arith, take,
  get_elem?, ◌≤◌, ltb, inl, inr, Bool-cases,
}
use forthdb.StackVm.Instruction.{Cell}
use forthdb.StackVm.Record.{IndexDelta}
use forthdb.StackVm.Index.{
  QueryPattern, matches_index, query_key, CompactIndexEntry, compare_cells, compare_prefix, is_lt,
  is_gt, partition_point, compact_prefix_range,
}

-- The derived order of entries.
abbrev fields : CompactIndexEntry → List ℕ
fields e = e.first ∷ e.second ∷ e.third ∷ e.record_ref ∷ e.slot ∷ []

abbrev Before : CompactIndexEntry → List CompactIndexEntry → Type 0
Before x [] = Unit
Before x (y ∷ ys) = (is_gt (compare_cells (fields x) (fields y)) ≡ false) × Before x ys

abbrev pub IsSorted : List CompactIndexEntry → Type 0
IsSorted [] = Unit
IsSorted (x ∷ xs) = Before x xs × IsSorted xs

-- A list that is not after another is on the same side of a key as it, or before.
less_down :
    (n : ℕ) (xs ys key : List ℕ)
    → is_gt (compare_cells xs ys) ≡ false
    → is_lt (compare_cells (take n ys) (take n key)) ≡ true
    → is_lt (compare_cells (take n xs) (take n key)) ≡ true
less_down zero xs ys key le h = h
less_down (suc n) [] [] key le h = h
less_down (suc n) [] (y ∷ ys) [] le h = cc
less_down (suc n) [] (y ∷ ys) (k ∷ key) le h = refl
less_down (suc n) (x ∷ xs) [] key le h = cc
less_down (suc n) (x ∷ xs) (y ∷ ys) [] le h = cc
less_down (suc n) (x ∷ xs) (y ∷ ys) (k ∷ key) le h = ground (arith, less_down n xs ys key)

not_greater_down :
    (n : ℕ) (xs ys key : List ℕ)
    → is_gt (compare_cells xs ys) ≡ false
    → is_gt (compare_cells (take n ys) (take n key)) ≡ false
    → is_gt (compare_cells (take n xs) (take n key)) ≡ false
not_greater_down zero xs ys key le h = h
not_greater_down (suc n) [] [] key le h = h
not_greater_down (suc n) [] (y ∷ ys) [] le h = refl
not_greater_down (suc n) [] (y ∷ ys) (k ∷ key) le h = refl
not_greater_down (suc n) (x ∷ xs) [] key le h = cc
not_greater_down (suc n) (x ∷ xs) (y ∷ ys) [] le h = cc
not_greater_down (suc n) (x ∷ xs) (y ∷ ys) (k ∷ key) le h =
    ground (arith, not_greater_down n xs ys key)

module _ (test : CompactIndexEntry → Bool)
    (down : (x y : CompactIndexEntry)
      → is_gt (compare_cells (fields x) (fields y)) ≡ false
      → test y ≡ true
      → test x ≡ true) where
  later-false :
      (x y : CompactIndexEntry) (xs : List CompactIndexEntry) (i : ℕ)
      → Before x xs
      → test x ≡ false
      → get_elem? xs i ≡ some y
      → test y ≡ false
  later-false x y [] i b h e = cc
  later-false x y (z ∷ xs) zero (le, b) h e =
      let same : z ≡ y = let e' : some z ≡ some y = e in cc in
      elim (Bool-cases (test y)) [
        | inl p ↦ absurd (let q : test x ≡ true = down x z le (rw same p) in cc)
        | inr p ↦ p
      ]
  later-false x y (z ∷ xs) (suc i) (le, b) h e = later-false x y xs i b h e

  -- In a sorted list the entries before the partition point are those that pass.
  partition_point-test :
      (xs : List CompactIndexEntry) (i : ℕ) (y : CompactIndexEntry)
      → IsSorted xs
      → get_elem? xs i ≡ some y
      → ltb i (partition_point test xs) ≡ test y
  unfolding partition_point
  partition_point-test [] i y s e = cc
  partition_point-test (x ∷ xs) zero y (b, s) e =
      let same : x ≡ y = let e' : some x ≡ some y = e in cc in
      rw same
        (elim (Bool-cases (test y)) [ inl p ↦ rw p (ground arith) | inr p ↦ rw p (ground arith) ])
  partition_point-test (x ∷ xs) (suc i) y (b, s) e = elim (Bool-cases (test x)) [
    | inl p ↦ rw p (let ih = partition_point-test xs i y s e in ground arith)
    | inr p ↦ rw (p, later-false x y xs i b p e) (ground arith)
  ]

abbrev pub entry_of : IndexDelta → CompactIndexEntry
entry_of d = record {
  first = d.first;
  second = d.second;
  third = d.third;
  record_ref = d.record_ref;
  slot = d.slot;
}

abbrev pub within : ℕ → ℕ × ℕ → Bool
within i (start, end_) = not (ltb i start) && ltb i end_

-- A key has three cells at most, so that its order is the order of the fields.
take_fields :
    (n : ℕ) (y : CompactIndexEntry)
    → n ≤ 3
    → take n (y.first ∷ y.second ∷ y.third ∷ []) ≡ take n (fields y)
take_fields zero y h = refl
take_fields (suc zero) y h = refl
take_fields (suc (suc zero)) y h = refl
take_fields (suc (suc (suc zero))) y h = refl
take_fields (suc (suc (suc (suc n)))) y h = absurd (omega arith)

within-range :
    (entries : List CompactIndexEntry) (i : ℕ) (y : CompactIndexEntry) (key : List Cell) (n : ℕ)
    → n ≤ 3
    → IsSorted entries
    → get_elem? entries i ≡ some y
    → within i (compact_prefix_range entries key n)
      ≡ not (is_lt (compare_prefix y key n)) && not (is_gt (compare_prefix y key n))
unfolding compact_prefix_range compare_prefix
within-range entries i y key n few s e =
    let less =
      partition_point-test (λ x. is_lt (compare_prefix x key n))
        (λ x z le h.
          rw (take_fields n x few)
            (less_down n (fields x) (fields z) key le (rw (take_fields n z few) at h)))
        entries i y s e in
    let upto =
      partition_point-test (λ x. not (is_gt (compare_prefix x key n)))
        (λ x z le h. rw (take_fields n x few) (
          let g =
            not_greater_down n (fields x) (fields z) key le
              (let h' = rw (take_fields n z few) at h in ground arith) in
          ground arith))
        entries i y s e in
    rw (less, upto) refl

-- Where the entry of a delta stands in the sorted entries of the permutation that a pattern's key
-- names, its place is in the range that the search for the key finds exactly when the delta matches
-- the pattern.
pub within-compact_prefix_range :
    (entries : List CompactIndexEntry) (i : ℕ) (d : IndexDelta) (pattern : QueryPattern)
    → IsSorted entries
    → get_elem? entries i ≡ some (entry_of d)
    → d.permutation ≡ (query_key pattern).0
    → within i (compact_prefix_range entries (query_key pattern).1 (query_key pattern).2)
      ≡ matches_index d pattern
unfolding matches_index query_key compare_prefix
within-compact_prefix_range entries i d (QueryPattern.subject s) sorted e q =
    within-range entries i (entry_of d) _ 1 (omega arith) sorted e ∙ ground (arith, q)
within-compact_prefix_range entries i d (QueryPattern.predicate p) sorted e q =
    within-range entries i (entry_of d) _ 1 (omega arith) sorted e ∙ ground (arith, q)
within-compact_prefix_range entries i d (QueryPattern.object o) sorted e q =
    within-range entries i (entry_of d) _ 1 (omega arith) sorted e ∙ ground (arith, q)
within-compact_prefix_range entries i d (QueryPattern.subject_predicate s p) sorted e q =
    within-range entries i (entry_of d) _ 2 (omega arith) sorted e ∙ ground (arith, q)
within-compact_prefix_range entries i d (QueryPattern.subject_object s o) sorted e q =
    within-range entries i (entry_of d) _ 2 (omega arith) sorted e ∙ ground (arith, q)
within-compact_prefix_range entries i d (QueryPattern.predicate_object p o) sorted e q =
    within-range entries i (entry_of d) _ 2 (omega arith) sorted e ∙ ground (arith, q)
within-compact_prefix_range entries i d (QueryPattern.exact s p o) sorted e q =
    within-range entries i (entry_of d) _ 3 (omega arith) sorted e ∙ ground (arith, q)
