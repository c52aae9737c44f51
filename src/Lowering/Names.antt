-- ===== src/Lowering/Names.antt =====
-- `sort_unstable_by_key` and `dedup_by` on the names themselves, and `BTreeSet<String>`: sorted
-- lists of distinct names.
pub mod Order
pub mod Members
pub mod Sorted
use mathlib.Core.Option
use forthdb.Prelude.{
  ℕ, suc, ◌≡◌, refl, sym, ap, ◌⊎◌, inl, inr, Option, none, some, Bool, true, false, ◌||◌, List, [],
  ◌∷◌, ltb, ◌==◌, if◌then◌else◌, arith, Bool-cases, foldl, subst,
}
use forthdb.Prelude.Equality.{same, same_refl, same-eq, same_comm, list_equality, nat_equality}
use forthdb.Kernel.Binding.{text_less}
use forthdb.SemanticIsa.Utf8.{Text}

unfoldable pub contains : Text → List Text → Bool
contains t [] = false
contains t (u ∷ us) = same t u || contains t us

-- The insertion of a name into an ascending list.
unfoldable pub place : Text → List Text → List Text
place t [] = t ∷ []
place t (u ∷ us) = let rest = place t us in if text_less u t then u ∷ rest else t ∷ u ∷ us

unfoldable pub sort : List Text → List Text
sort [] = []
sort (t ∷ ts) = place t (sort ts)

-- What `dedup_by` keeps after the name it kept last.
unfoldable pub dedup_after : Text → List Text → List Text
dedup_after last [] = []
dedup_after last (t ∷ ts) =
    let skipped = dedup_after last ts in
    let kept = dedup_after t ts in if same t last then skipped else t ∷ kept

unfoldable pub dedup : List Text → List Text
unfolding dedup_after
dedup [] = []
dedup (t ∷ ts) = t ∷ dedup_after t ts

-- `BTreeSet::insert`
unfoldable pub insert : List Text → Text → List Text
insert [] t = t ∷ []
insert (u ∷ us) t =
    let rest = insert us t in
    if text_less t u then t ∷ u ∷ us else if same t u then u ∷ us else u ∷ rest

-- The set of the names of a list, inserted in order.
abbrev pub collect : List Text → List Text
collect = foldl insert []

-- `binary_search_by_key` on a sorted list of distinct names: where a name stands.
unfoldable pub search : Text → List Text → Option ℕ
search t [] = none
search t (u ∷ us) =
    let later = Option.map (λ i. suc i) (search t us) in
    if same t u then some 0 else if text_less t u then none else later

-- `position` of a name in a list that need not be sorted.
unfoldable pub position : Text → List Text → Option ℕ
position t [] = none
position t (u ∷ us) =
    let later = Option.map (λ i. suc i) (position t us) in if same t u then some 0 else later

-- Sorted, each name once.
abbrev pub Climbs : Text → List Text → Type 0
Climbs low [] = Unit
Climbs low (t ∷ ts) = (text_less low t ≡ true) × Climbs t ts

abbrev pub IsSorted : List Text → Type 0
IsSorted [] = Unit
IsSorted (t ∷ ts) = Climbs t ts
