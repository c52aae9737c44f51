-- ===== src/Lowering/Names/Order.antt =====
-- The order of texts by their bytes.
use forthdb.Prelude.{◌≡◌, refl, inl, inr, true, false, [], ◌∷◌, arith, Bool-cases}
use forthdb.Prelude.Equality.{same, list_equality, nat_equality}
use forthdb.Kernel.Binding.{text_less}
use forthdb.SemanticIsa.Utf8.{Text}

-- The order of the bytes is a strict total order.
pub less_irrefl : (t : Text) → text_less t t ≡ false
unfolding text_less
less_irrefl [] = refl
less_irrefl (b ∷ t) = ground (arith, less_irrefl t)

pub less_trans : (t u v : Text) → text_less t u ≡ true → text_less u v ≡ true → text_less t v ≡ true
unfolding text_less
less_trans [] [] v h k = cc
less_trans [] (c ∷ u) [] h k = cc
less_trans [] (c ∷ u) (d ∷ v) h k = refl
less_trans (b ∷ t) [] v h k = cc
less_trans (b ∷ t) (c ∷ u) [] h k = cc
less_trans (b ∷ t) (c ∷ u) (d ∷ v) h k = ground (arith, less_trans t u v)

pub less_asym : (t u : Text) → text_less t u ≡ true → text_less u t ≡ false
less_asym t u h = elim (Bool-cases (text_less u t)) [
  | inl k ↦ let e = less_trans t u t h k in let f = less_irrefl t in cc
  | inr k ↦ k
]

pub less_total : (t u : Text) → text_less t u ≡ false → same t u ≡ false → text_less u t ≡ true
unfolding text_less
less_total [] [] h k = cc
less_total [] (c ∷ u) h k = cc
less_total (b ∷ t) [] h k = refl
less_total (b ∷ t) (c ∷ u) h k = ground (arith, less_total t u)
