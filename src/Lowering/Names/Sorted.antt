-- ===== src/Lowering/Names/Sorted.antt =====
-- Sorting and removing repetitions gives the set of the names, in the order of `BTreeSet`.

use forthdb.Prelude.{
  ℕ, suc, ◌≡◌, refl, sym, ap, ◌∙◌, inl, inr, none, some, true, false, List, [], ◌∷◌, arith,
  Bool-cases, foldl, subst,
}
use forthdb.Prelude.Equality.{same, same_refl, same-eq, same_comm, list_equality, nat_equality}
use forthdb.Kernel.Binding.{text_less}
use forthdb.SemanticIsa.Utf8.{Text}
use forthdb.Lowering.Names.{
  contains, place, sort, dedup_after, dedup, insert, collect, search, Climbs, IsSorted,
}
use forthdb.Lowering.Names.Members.{contains-sort, contains-dedup, contains-foldl-insert}
use forthdb.Lowering.Names.Order.{less_irrefl, less_trans, less_asym, less_total}

-- Ascending from a bound, with repetitions.
abbrev Ascends : Text → List Text → Type 0
Ascends low [] = Unit
Ascends low (t ∷ ts) = (text_less t low ≡ false) × Ascends t ts

abbrev pub IsAscending : List Text → Type 0
IsAscending [] = Unit
IsAscending (t ∷ ts) = Ascends t ts

pub Climbs-IsSorted : (low : Text) (ts : List Text) → Climbs low ts → IsSorted ts
Climbs-IsSorted low [] h = tt
Climbs-IsSorted low (t ∷ ts) h = h.1

place-Ascends :
    (low t : Text) (us : List Text)
    → text_less t low ≡ false
    → Ascends low us
    → Ascends low (place t us)
unfolding place
place-Ascends low t [] le h = (le, tt)
place-Ascends low t (u ∷ us) le (here, h) = elim (Bool-cases (text_less u t)) [
  | inl p ↦ rw p (here, place-Ascends u t us (less_asym u t p) h)
  | inr p ↦ rw p (le, (p, h))
]

place-IsAscending : (t : Text) (us : List Text) → IsAscending us → IsAscending (place t us)
unfolding place
place-IsAscending t [] h = tt
place-IsAscending t (u ∷ us) h = elim (Bool-cases (text_less u t)) [
  | inl p ↦ rw p (place-Ascends u t us (less_asym u t p) h)
  | inr p ↦ rw p (p, h)
]

sort-IsAscending : (ts : List Text) → IsAscending (sort ts)
unfolding sort
sort-IsAscending [] = tt
sort-IsAscending (t ∷ ts) = place-IsAscending t (sort ts) (sort-IsAscending ts)

dedup_after-Climbs :
    (low : Text) (ts : List Text) → Ascends low ts → Climbs low (dedup_after low ts)
unfolding dedup_after
dedup_after-Climbs low [] h = tt
dedup_after-Climbs low (t ∷ ts) (here, h) = elim (Bool-cases (same t low)) [
  | inl p ↦ rw p (dedup_after-Climbs low ts (subst (λ x. Ascends x ts) (same-eq t low p) h))
  | inr p ↦ rw p (less_total t low here p, dedup_after-Climbs t ts h)
]

dedup-IsSorted : (ts : List Text) → IsAscending ts → IsSorted (dedup ts)
unfolding dedup
dedup-IsSorted [] h = tt
dedup-IsSorted (t ∷ ts) h = dedup_after-Climbs t ts h

insert-Climbs :
    (low : Text) (us : List Text) (t : Text)
    → text_less low t ≡ true
    → Climbs low us
    → Climbs low (insert us t)
unfolding insert
insert-Climbs low [] t lt h = (lt, tt)
insert-Climbs low (u ∷ us) t lt (here, h) = elim (Bool-cases (text_less t u)) [
  | inl p ↦ rw p (lt, (p, h))
  | inr p ↦ elim (Bool-cases (same t u)) [
    | inl q ↦ rw (p, q) (here, h)
    | inr q ↦ rw (p, q) (here, insert-Climbs u us t (less_total t u p q) h)
  ]
]

pub insert-IsSorted : (us : List Text) (t : Text) → IsSorted us → IsSorted (insert us t)
unfolding insert
insert-IsSorted [] t h = tt
insert-IsSorted (u ∷ us) t h = elim (Bool-cases (text_less t u)) [
  | inl p ↦ rw p (p, h)
  | inr p ↦ elim (Bool-cases (same t u)) [
    | inl q ↦ rw (p, q) h
    | inr q ↦ rw (p, q) (insert-Climbs u us t (less_total t u p q) h)
  ]
]

pub foldl-insert-IsSorted : (us ts : List Text) → IsSorted us → IsSorted (foldl insert us ts)
foldl-insert-IsSorted us [] h = h
foldl-insert-IsSorted us (t ∷ ts) h =
    foldl-insert-IsSorted (insert us t) ts (insert-IsSorted us t h)

-- Two sets with the same members are equal.
pub contains_low :
    (low t : Text) (us : List Text)
    → text_less low t ≡ false
    → Climbs low us
    → contains t us ≡ false
unfolding contains
contains_low low t [] le h = refl
contains_low low t (u ∷ us) le (here, h) = elim (Bool-cases (same t u)) [
  | inl p ↦ let e : t ≡ u = same-eq t u p in let f = ap (λ x. text_less low x) e in cc
  | inr p ↦ rw p (contains_low u t us (beyond p) h)
]
  where
    beyond : same t u ≡ false → text_less u t ≡ false
    beyond p = elim (Bool-cases (text_less u t)) [
      | inl k ↦ let e = less_trans low u t here k in cc
      | inr k ↦ k
    ]

first_eq :
    (x y : Text) (xs ys : List Text)
    → Climbs x xs
    → Climbs y ys
    → ((t : Text) → contains t (x ∷ xs) ≡ contains t (y ∷ ys))
    → x ≡ y
unfolding contains
first_eq x y xs ys h k e = elim (Bool-cases (same x y)) [
  | inl p ↦ same-eq x y p
  | inr p ↦ elim (Bool-cases (text_less y x)) [
    | inl q ↦
        absurd
          (ground (arith, e y, same_refl y, same_comm x y, contains_low x y xs (less_asym y x q) h))
    | inr q ↦ absurd (ground (arith, e x, same_refl x, contains_low y x ys q k))
  ]
]

sets_ext :
    (xs ys : List Text)
    → IsSorted xs
    → IsSorted ys
    → ((t : Text) → contains t xs ≡ contains t ys)
    → xs ≡ ys
unfolding contains
sets_ext [] [] h k e = refl
sets_ext [] (y ∷ ys) h k e = absurd (ground (arith, e y, same_refl y))
sets_ext (x ∷ xs) [] h k e = absurd (ground (arith, e x, same_refl x))
sets_ext (x ∷ xs) (y ∷ ys) h k e =
    let first : x ≡ y = first_eq x y xs ys h k e in
    let h' : Climbs y xs = subst (λ z. Climbs z xs) first h in
    let tails : xs ≡ ys =
      sets_ext xs ys (Climbs-IsSorted x xs h) (Climbs-IsSorted y ys k) (λ t. same_tail t h') in
    λ i. first i ∷ tails i
  where
    same_tail : (t : Text) → Climbs y xs → contains t xs ≡ contains t ys
    same_tail t h' = elim (Bool-cases (same t y)) [
      | inl p ↦
          let q : text_less y t ≡ false = rw (same-eq t y p) (less_irrefl y) in
          rw (contains_low y t xs q h', contains_low y t ys q k) refl
      | inr p ↦
          let f = e t in
          let g : same t x ≡ false = rw (first_eq x y xs ys h k e) p in ground (arith, f, g, p)
    ]

pub dedup-sort : (ts : List Text) → dedup (sort ts) ≡ collect ts
unfolding contains
dedup-sort ts =
    sets_ext (dedup (sort ts)) (collect ts) (dedup-IsSorted (sort ts) (sort-IsAscending ts))
      (foldl-insert-IsSorted [] ts tt)
      (λ t. contains-dedup t (sort ts) ∙ contains-sort t ts ∙ sym (contains-foldl-insert t [] ts))

-- No name up to a bound is found above the bound.
pub search_low :
    (low t : Text) (us : List Text) → text_less low t ≡ false → Climbs low us → search t us ≡ none
unfolding search
search_low low t [] le h = refl
search_low low t (u ∷ us) le (here, h) = elim (Bool-cases (same t u)) [
  | inl p ↦ let e : t ≡ u = same-eq t u p in let f = ap (λ x. text_less low x) e in cc
  | inr p ↦ rw (p, below) refl
]
  where
    below : text_less t u ≡ true
    below = elim (Bool-cases (same t low)) [
      | inl q ↦ rw (same-eq t low q) here
      | inr q ↦
          let r : same low t ≡ false = rw (same_comm low t) q in
          less_trans t low u (less_total low t le r) here
    ]

-- Every member of a set is found.
pub search-contains :
    (t : Text) (us : List Text)
    → IsSorted us
    → contains t us ≡ true
    → (i : ℕ) × (search t us ≡ some i)
unfolding contains search
search-contains t [] h c = cc
search-contains t (u ∷ us) h c = elim (Bool-cases (same t u)) [
  | inl p ↦ (0, rw p refl)
  | inr p ↦
      let c' : contains t us ≡ true = ground (arith, p) in
      let (i, found) = search-contains t us (Climbs-IsSorted u us h) c' in
      elim (Bool-cases (text_less t u)) [
        | inl q ↦ let e = contains_low u t us (less_asym t u q) h in cc
        | inr q ↦ (suc i, rw (p, q, found) refl)
      ]
]
