-- ===== src/Lowering/Reference/Numbers.antt =====
-- The numbers of the names of a set: a map from a name to its number, and its place in the set.
use mathlib.Core.Option
use forthdb.Prelude.{
  ℕ, suc, ◌+◌, ◌≡◌, refl, ap, ◌∙◌, inl, inr, true, false, List, [], ◌∷◌, Option, none, some,
  Bool-cases, Option-cases, arith, length, if◌then◌else◌,
}
use forthdb.Prelude.Map.{Map, get, insert, remove, get-insert}
use forthdb.Prelude.Equality.{same, same-eq, same_refl, list_equality, nat_equality}
use forthdb.Kernel.Binding.{text_less}
use forthdb.SemanticIsa.Utf8.{Text}
use forthdb.Lowering.Names.{contains, search, IsSorted}
use forthdb.Lowering.Names.Sorted.{search_low, Climbs-IsSorted, contains_low}
use forthdb.Lowering.Names.Order.{less_irrefl, less_asym}
use forthdb.Lowering.Plan.{numbered}
use forthdb.Lowering.Reference.{number_map, number_dict}

pub number_dict-numbered :
    (f : ℕ → ℕ) (i : ℕ) (ts : List Text) → number_dict f i ts ≡ numbered f i ts
unfolding number_dict numbered
number_dict-numbered f i [] = refl
number_dict-numbered f i (t ∷ ts) = rw (number_dict-numbered f (suc i) ts) refl

-- The number of a name, or what the map held before.
abbrev or_before : (ℕ → ℕ) → Option ℕ → ℕ → Option ℕ → Option ℕ
or_before f (some k) i before = some (f (i + k))
or_before f none i before = before

get-number_map :
    (t : Text) (f : ℕ → ℕ) (i : ℕ) (us : List Text) (m : Map Text ℕ)
    → IsSorted us
    → get t (number_map f i us m) ≡ or_before f (search t us) i (get t m)
unfolding number_map search
get-number_map t f i [] m h = refl
get-number_map t f i (u ∷ us) m h =
    get-number_map t f (suc i) us (insert u (f i) m) (Climbs-IsSorted u us h)
    ∙ rw (get-insert t u (f i) m) (elim (Bool-cases (same t u)) [
      | inl p ↦
          let e : text_less u t ≡ false = rw (same-eq t u p) (less_irrefl u) in
          rw (p, search_low u t us e h) (ap (λ j. some (f j)) (omega arith))
      | inr p ↦ elim (Bool-cases (text_less t u)) [
        | inl q ↦ rw (p, q, search_low u t us (less_asym t u q) h) refl
        | inr q ↦
            rw (p, q)
              (elim (Option-cases (search t us)) [
                | inl e ↦ rw e refl
                | inr (k, e) ↦ rw e (ap (λ j. some (f j)) (omega arith))
              ])
      ]
    ])

-- From the empty map and number 0.
pub get-number_map-nil :
    (t : Text) (f : ℕ → ℕ) (us : List Text)
    → IsSorted us
    → get t (number_map f 0 us []) ≡ Option.map f (search t us)
unfolding get
get-number_map-nil t f us h = get-number_map t f 0 us [] h ∙ elim (Option-cases (search t us)) [
  | inl e ↦ rw e refl
  | inr (k, e) ↦ rw e (ap (λ j. some (f j)) (omega arith))
]

remove-absent : (k : Text) (m : Map Text ℕ) → get k m ≡ none → remove k m ≡ m
unfolding get remove
remove-absent k [] h = refl
remove-absent k ((j, v) ∷ m) h = elim (Bool-cases (same k j)) [
  | inl p ↦ let e : (if same k j then some v else get k m) ≡ none = h in absurd (some_absent p e)
  | inr p ↦ rw (p, remove-absent k m (rest p)) refl
]
  where
    some_absent : same k j ≡ true → (if same k j then some v else get k m) ≡ none → ⊥
    some_absent p e = ground arith

    rest : same k j ≡ false → get k m ≡ none
    rest p = ground arith

pub length-number_map :
    (f : ℕ → ℕ) (i : ℕ) (us : List Text) (m : Map Text ℕ)
    → IsSorted us
    → ((t : Text) → contains t us ≡ true → get t m ≡ none)
    → length (number_map f i us m) ≡ length us + length m
unfolding number_map contains insert
length-number_map f i [] m h absent = omega arith
length-number_map f i (u ∷ us) m h absent =
    let fresh : get u m ≡ none = absent u (rw (same_refl u) refl) in
    let counted : length (insert u (f i) m) ≡ suc (length m) = rw (remove-absent u m fresh) refl in
    length-number_map f (suc i) us (insert u (f i) m) (Climbs-IsSorted u us h)
      (λ t c. get-insert t u (f i) m ∙ later t c (absent t))
    ∙ omega arith
  where
    later :
        (t : Text)
        → contains t us ≡ true
        → (contains t (u ∷ us) ≡ true → get t m ≡ none)
        → (if same t u then some (f i) else get t m) ≡ none
    later t c k = elim (Bool-cases (same t u)) [
      | inl p ↦
          let e : contains u us ≡ true = rw (← same-eq t u p) c in
          let e' = contains_low u u us (less_irrefl u) h in cc
      | inr p ↦ rw p (k (rw (p, c) refl))
    ]
