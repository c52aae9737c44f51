-- ===== src/Lowering/Names/Members.antt =====
-- The members of sorted and of deduplicated names.
use forthdb.Lowering.Names.Order.{less_irrefl}
use forthdb.Prelude.{◌≡◌, refl, ◌∙◌, inl, inr, ◌||◌, List, [], ◌∷◌, arith, Bool-cases, foldl}
use forthdb.Prelude.Equality.{same, same_refl, same-eq, list_equality, nat_equality}
use forthdb.SemanticIsa.Utf8.{Text}
use forthdb.Lowering.Names.{contains, place, sort, dedup_after, dedup, insert}

-- Membership through each operation.
contains-place :
    (t u : Text) (us : List Text) → contains t (place u us) ≡ (same t u || contains t us)
unfolding contains place
contains-place t u [] = refl
contains-place t u (v ∷ us) = ground (arith, contains-place t u us)

pub contains-sort : (t : Text) (ts : List Text) → contains t (sort ts) ≡ contains t ts
unfolding contains sort
contains-sort t [] = refl
contains-sort t (u ∷ ts) = rw (contains-place t u (sort ts), contains-sort t ts) refl

contains-dedup_after :
    (t last : Text) (ts : List Text)
    → (same t last || contains t (dedup_after last ts)) ≡ (same t last || contains t ts)
unfolding contains dedup_after
contains-dedup_after t last [] = refl
contains-dedup_after t last (u ∷ ts) = elim (Bool-cases (same u last)) [
  | inl p ↦ rw (p, same-eq u last p) (ground (arith, contains-dedup_after t last ts))
  | inr p ↦ rw p (ground (arith, contains-dedup_after t u ts))
]

pub contains-dedup : (t : Text) (ts : List Text) → contains t (dedup ts) ≡ contains t ts
unfolding contains dedup
contains-dedup t [] = refl
contains-dedup t (u ∷ ts) = contains-dedup_after t u ts

contains-insert :
    (t u : Text) (us : List Text) → contains t (insert us u) ≡ (same t u || contains t us)
unfolding contains insert
contains-insert t u [] = refl
contains-insert t u (v ∷ us) = elim (Bool-cases (same u v)) [
  | inl p ↦ rw (same-eq u v p, same_refl v) (ground (arith, less_irrefl v))
  | inr p ↦ rw p (ground (arith, contains-insert t u us))
]

pub contains-foldl-insert :
    (t : Text) (us ts : List Text)
    → contains t (foldl insert us ts) ≡ (contains t us || contains t ts)
unfolding contains
contains-foldl-insert t us [] = ground arith
contains-foldl-insert t us (u ∷ ts) =
    contains-foldl-insert t (insert us u) ts ∙ rw (contains-insert t u us) (ground arith)
