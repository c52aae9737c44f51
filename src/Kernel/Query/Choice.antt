-- ===== src/Kernel/Query/Choice.antt =====
-- The pattern that `walk_query` takes out of the remaining ones.
use forthdb.Prelude.{
  ℕ, zero, suc, ◌+◌, ◌<◌, ◌≡◌, refl, ap, some, List, [], ◌∷◌, map, length, arith, length-map,
}
use forthdb.Prelude.Equality.{nat_equality, list_equality}
use forthdb.Kernel.Value.{Pattern, atom_equality}
use forthdb.Kernel.View.{candidates}
use forthdb.Kernel.Db.{ForthDb}
use forthdb.Kernel.Query.{Frame, QueryOptions, min_from, min_index, pick, chosen_index, take_out}
use forthdb.Kernel.Query.Spec.{All}

-- An element and the others, in any order.
pub record Splits {A : Type 0} (xs : List A) (x : A) (rest : List A) : Type 1 where
  pub size : length xs ≡ suc (length rest)
  pub there : (P : A → Type 0) → All P xs → P x × All P rest
  pub back : (P : A → Type 0) → P x → All P rest → All P xs

pub take_out-Splits :
    {A : Type 0} (i : ℕ) (xs : List A)
    → i < length xs
    → (x : A) × (rest : List A) × (take_out i xs ≡ some (x, rest)) × Splits xs x rest
unfolding take_out
take_out-Splits i [] h = absurd (omega arith)
take_out-Splits zero (x ∷ xs) h =
    (x, xs, refl, record { size = refl; there = λ P p. p; back = λ P p q. (p, q) })
take_out-Splits (suc i) (x ∷ xs) h =
    let (y, rest, e, s) = take_out-Splits i xs (omega arith) in
    (
      y,
      x ∷ rest,
      rw e refl,
      record {
        size = ap suc s.size;
        there = λ P p. ((s.there P p.1).0, (p.0, (s.there P p.1).1));
        back = λ P p q. (q.0, s.back P p q.1);
      },
    )

pub pick-bound : (best : ℕ × ℕ) (j x : ℕ) → best.0 < j → (pick best (j, x)).0 < suc j
pick-bound (i, v) j x h = ground arith

pub min_from-bound :
    (best : ℕ × ℕ) (j : ℕ) (xs : List ℕ) → best.0 < j → min_from best j xs < j + length xs
unfolding min_from
min_from-bound best j [] h = omega arith
min_from-bound best j (x ∷ xs) h =
    omega (arith, min_from-bound (pick best (j, x)) (suc j) xs (pick-bound best j x h))

pub chosen_index-bound :
    (db : ForthDb) (options : QueryOptions) (frame : Frame) (p : Pattern) (ps : List Pattern)
    → chosen_index db options frame (p ∷ ps) < suc (length ps)
unfolding chosen_index min_index
chosen_index-bound db options frame p ps =
    let count : Pattern → ℕ =
      λ pattern. length (candidates pattern frame.binding db.store db.view) in
    let bound = min_from-bound (0, count p) 1 (map count ps) (omega arith) in
    ground (arith, length-map count ps)
