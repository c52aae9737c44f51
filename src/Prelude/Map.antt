-- ===== src/Prelude/Map.antt =====
-- `HashMap` as an association list with one entry for a key. The order of the entries, which the
-- source cannot rely on, is that of the last writes.
use mathlib.Core.Path.{◌≡◌, refl, ◌∙◌, ap}
use mathlib.Core.Logic.{inl, inr}
use mathlib.Core.Bool.{true}
use mathlib.Core.Option.{Option, none, some}
use mathlib.Core.List.{List, [], ◌∷◌, map}
use Prim.Native.Nat.{ℕ}
use forthdb.Prelude.Tests.{if◌then◌else◌, Bool-cases, ◌==◌, ==_refl}
use forthdb.Prelude.IdSet.{contains}
use forthdb.Prelude.Equality.{Equality, same, same_refl, same-eq, same_comm}
use native.Mathlib.Omega.{arith}

abbrev pub Map : Type 0 → Type 0 → Type 0
Map K V = List (K × V)

module _ {K V : Type 0} where
  abbrev pub values : Map K V → List V
  values m = map (λ entry. entry.1) m

module _ {K V : Type 0} ⦃e : Equality K⦄ where
  unfoldable pub get : K → Map K V → Option V
  get k [] = none
  get k ((j, v) ∷ m) = if same k j then some v else get k m

  unfoldable pub remove : K → Map K V → Map K V
  remove k [] = []
  remove k ((j, v) ∷ m) = let rest = remove k m in if same k j then rest else (j, v) ∷ rest

  unfoldable pub insert : K → V → Map K V → Map K V
  insert k v m = (k, v) ∷ remove k m

  -- One entry for a key.
  abbrev pub IsMap : Map K V → Type 0
  IsMap [] = Unit
  IsMap ((k, v) ∷ m) = (get k m ≡ none) × IsMap m

  pub get-remove :
      (k j : K) (m : Map K V) → get k (remove j m) ≡ (if same k j then none else get k m)
  unfolding get remove
  get-remove k j [] = ground arith
  get-remove k j ((i, v) ∷ m) = elim (Bool-cases (same j i)) [
    | inl p ↦ rw (p, ← same-eq j i p) (ground (arith, get-remove k j m))
    | inr p ↦ elim (Bool-cases (same k i)) [
      | inl q ↦ rw (p, q, same-eq k i q, same_comm i j, p) (ground arith)
      | inr q ↦ rw (p, q, get-remove k j m) refl
    ]
  ]

  pub get-insert :
      (k j : K) (v : V) (m : Map K V)
      → get k (insert j v m) ≡ (if same k j then some v else get k m)
  unfolding get insert
  get-insert k j v m = ground (arith, get-remove k j m)

  pub remove-IsMap : (k : K) (m : Map K V) → IsMap m → IsMap (remove k m)
  unfolding remove
  remove-IsMap k [] h = tt
  remove-IsMap k ((j, v) ∷ m) (new, h) = elim (Bool-cases (same k j)) [
    | inl p ↦ rw p (remove-IsMap k m h)
    | inr p ↦ rw p (get-remove j k m ∙ rw new (ground arith), remove-IsMap k m h)
  ]

  pub insert-IsMap : (k : K) (v : V) (m : Map K V) → IsMap m → IsMap (insert k v m)
  unfolding insert
  insert-IsMap k v m h = (get-remove k k m ∙ rw (same_refl k), remove-IsMap k m h)

-- The values of a map are what its keys lead to.
module _ {K : Type 0} ⦃e : Equality K⦄ where
  pub get-contains : (k : K) (m : Map K ℕ) {v : ℕ} → get k m ≡ some v → contains v (values m) ≡ true
  unfolding get contains
  get-contains k [] h = cc
  get-contains k ((j, w) ∷ m) {v} h = elim (Bool-cases (same k j)) [
    | inl p ↦ ground (arith, p, ==_refl v)
    | inr p ↦ ground (arith, p, get-contains k m {v = v})
  ]

  pub contains-get :
      (v : ℕ) (m : Map K ℕ) → IsMap m → contains v (values m) ≡ true → (k : K) × (get k m ≡ some v)
  unfolding get contains
  contains-get v [] h c = cc
  contains-get v ((j, w) ∷ m) (new, h) c = elim (Bool-cases (v == w)) [
    | inl p ↦ let eq : v ≡ w = ground arith in (j, rw (same_refl j, eq) refl)
    | inr p ↦
        let (k, found) = contains-get v m h (ground (arith, p)) in
        (
          k,
          elim (Bool-cases (same k j)) [
            | inl q ↦ let clash = ap (λ k. get k m) (same-eq k j q) in cc
            | inr q ↦ rw q found
          ],
        )
  ]
