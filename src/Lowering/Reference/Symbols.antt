-- ===== src/Lowering/Reference/Symbols.antt =====
-- The numbers of symbols: a map from a name to its number, and the place of the name in the list.

use forthdb.Prelude.{
  ℕ, suc, ◌≡◌, refl, ◌<◌, inl, inr, true, false, List, [], ◌∷◌, ◌++◌, none, some, Bool-cases, arith,
  length, if◌then◌else◌,
}
use forthdb.Prelude.Equality.{same, same-eq, same_comm, list_equality, nat_equality}
use forthdb.SemanticIsa.Utf8.{Text}
use forthdb.Lowering.Names.{contains, position}

pub position-push :
    (k r : Text) (ys : List Text)
    → contains r ys ≡ false
    → position k (ys ++ r ∷ []) ≡ (if same k r then some (length ys) else position k ys)
unfolding contains position
position-push k r [] h = refl
position-push k r (y ∷ ys) h = elim (Bool-cases (same k y)) [
  | inl p ↦
      let q : same k r ≡ false = rw (same-eq k y p, same_comm y r) (ground arith) in rw (p, q) refl
  | inr p ↦
      let rest : contains r ys ≡ false = ground arith in
      rw (p, position-push k r ys rest)
        (elim (Bool-cases (same k r)) [ inl q ↦ rw q refl | inr q ↦ rw q refl ])
]

pub position-contains-false :
    (k : Text) (ys : List Text) → contains k ys ≡ false → position k ys ≡ none
unfolding contains position
position-contains-false k [] h = refl
position-contains-false k (y ∷ ys) h =
    let here : same k y ≡ false = ground arith in
    let rest : contains k ys ≡ false = ground arith in
    rw (here, position-contains-false k ys rest) refl

pub position-contains :
    (k : Text) (ys : List Text)
    → contains k ys ≡ true
    → (i : ℕ) × (position k ys ≡ some i) × (i < length ys)
unfolding contains position
position-contains k [] h = cc
position-contains k (y ∷ ys) h = elim (Bool-cases (same k y)) [
  | inl p ↦ (0, rw p refl, omega arith)
  | inr p ↦
      let rest : contains k ys ≡ true = ground (arith, p) in
      let (i, found, lt) = position-contains k ys rest in (suc i, rw (p, found) refl, omega arith)
]
