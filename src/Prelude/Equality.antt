-- ===== src/Prelude/Equality.antt =====
-- `Eq` of a key type, as a test with its meaning.
use mathlib.Core.Path.{◌≡◌, refl, ap}
use mathlib.Core.Logic.{◌↔◌, inl, inr}
use mathlib.Core.Bool.{Bool, true, false, ◌&&◌}
use mathlib.Core.List.{List, [], ◌∷◌}
use Prim.Native.Nat.{ℕ}
use forthdb.Prelude.Tests.{◌==◌, ==_iff, Bool-cases}
use native.Mathlib.Omega.{arith}

pub record Equality (K : Type 0) : Type 0 where
  pub equals : K → K → Bool
  pub equals_iff : (a b : K) → (equals a b ≡ true) ↔ (a ≡ b)

abbrev pub same : {K : Type 0} ⦃e : Equality K⦄ → K → K → Bool
same ⦃e⦄ = e.equals

module _ {K : Type 0} ⦃e : Equality K⦄ where
  pub same_refl : (a : K) → same a a ≡ true
  same_refl a = (e.equals_iff a a).1 refl

  pub same-eq : (a b : K) → same a b ≡ true → a ≡ b
  same-eq a b = (e.equals_iff a b).0

  pub same_comm : (a b : K) → same a b ≡ same b a
  same_comm a b = elim (Bool-cases (same a b)) [
    | inl p ↦ rw (same-eq a b p) refl
    | inr p ↦ elim (Bool-cases (same b a)) [ inl q ↦ rw (same-eq b a q) refl | inr q ↦ rw (p, q) ]
  ]

instance abbrev pub nat_equality : Equality ℕ
nat_equality = record { equals = ◌==◌; equals_iff = ==_iff }

module _ {A B : Type 0} ⦃e : Equality A⦄ ⦃f : Equality B⦄ where
  abbrev pub same_pair : A × B → A × B → Bool
  same_pair (a, b) (a', b') = same a a' && same b b'

  pub same_pair_iff : (p q : A × B) → (same_pair p q ≡ true) ↔ (p ≡ q)
  same_pair_iff (a, b) (a', b') = (
    λ h. λ i. (same-eq a a' (ground arith) i, same-eq b b' (ground arith) i),
    λ h. ground (arith, same_refl a, same_refl b, ap (λ p. p.0) h, ap (λ p. p.1) h),
  )

  instance abbrev pub pair_equality : Equality (A × B)
  pair_equality = record { equals = same_pair; equals_iff = same_pair_iff }

module _ {A : Type 0} ⦃e : Equality A⦄ where
  abbrev pub same_list : List A → List A → Bool
  same_list [] [] = true
  same_list (x ∷ xs) (y ∷ ys) = same x y && same_list xs ys
  same_list [] (y ∷ ys) = false
  same_list (x ∷ xs) [] = false

  same_list_refl : (xs : List A) → same_list xs xs ≡ true
  same_list_refl [] = refl
  same_list_refl (x ∷ xs) = rw (same_refl x) (same_list_refl xs)

  same_list-eq : (xs ys : List A) → same_list xs ys ≡ true → xs ≡ ys
  same_list-eq [] [] h = refl
  same_list-eq (x ∷ xs) (y ∷ ys) h =
      let p = same-eq x y (ground arith) in
      let q = same_list-eq xs ys (ground arith) in λ i. p i ∷ q i
  same_list-eq [] (y ∷ ys) h = cc
  same_list-eq (x ∷ xs) [] h = cc

  pub same_list_iff : (xs ys : List A) → (same_list xs ys ≡ true) ↔ (xs ≡ ys)
  same_list_iff xs ys = (same_list-eq xs ys, λ h. rw (← h) (same_list_refl xs))

  instance abbrev pub list_equality : Equality (List A)
  list_equality = record { equals = same_list; equals_iff = same_list_iff }
