-- ===== src/Prelude/IdSet.antt =====
-- `BTreeSet` and `HashSet` of numbers as strictly sorted lists, and `sort_unstable`.
use Prim.Native.Nat.{ℕ, suc, ◌≤◌, ◌<◌}
use mathlib.Core.Path.{◌≡◌, refl}
use mathlib.Core.Bool.{Bool, false, ◌&&◌, not, ◌||◌}
use mathlib.Core.List.{List, [], ◌∷◌}
use forthdb.Prelude.Tests.{if◌then◌else◌, ltb, leb, ◌==◌, ==_refl}
use native.Mathlib.Omega.{arith}

abbrev pub IdSet : Type 0
IdSet = List ℕ

unfoldable pub contains : ℕ → IdSet → Bool
contains x [] = false
contains x (y ∷ ys) = x == y || contains x ys

unfoldable pub insert : ℕ → IdSet → IdSet
insert x [] = x ∷ []
insert x (y ∷ ys) =
    let rest = insert x ys in if ltb x y then x ∷ y ∷ ys else if x == y then y ∷ ys else y ∷ rest

unfoldable pub remove : ℕ → IdSet → IdSet
remove x [] = []
remove x (y ∷ ys) = let rest = remove x ys in if x == y then rest else y ∷ rest

-- `iter.collect()`
unfoldable pub collect : List ℕ → IdSet
collect [] = []
collect (x ∷ xs) = insert x (collect xs)

unfoldable pub place : ℕ → List ℕ → List ℕ
place x [] = x ∷ []
place x (y ∷ ys) = let rest = place x ys in if leb x y then x ∷ y ∷ ys else y ∷ rest

unfoldable pub sort_unstable : List ℕ → List ℕ
sort_unstable [] = []
sort_unstable (x ∷ xs) = place x (sort_unstable xs)

-- Strictly sorted, with no element below a bound.
abbrev pub IsSortedFrom : ℕ → IdSet → Type 0
IsSortedFrom low [] = Unit
IsSortedFrom low (x ∷ xs) = (low ≤ x) × IsSortedFrom (suc x) xs

abbrev pub IsSorted : IdSet → Type 0
IsSorted = IsSortedFrom 0

pub contains-insert : (y x : ℕ) (xs : IdSet) → contains y (insert x xs) ≡ (y == x || contains y xs)
unfolding contains insert
contains-insert y x [] = refl
contains-insert y x (z ∷ zs) = ground (arith, contains-insert y x zs)

pub contains-remove :
    (y x : ℕ) (xs : IdSet) → contains y (remove x xs) ≡ (not (y == x) && contains y xs)
unfolding contains remove
contains-remove y x [] = ground arith
contains-remove y x (z ∷ zs) = ground (arith, contains-remove y x zs)

pub contains-collect : (y : ℕ) (xs : List ℕ) → contains y (collect xs) ≡ contains y xs
unfolding contains collect
contains-collect y [] = refl
contains-collect y (x ∷ xs) = rw (contains-insert y x (collect xs), contains-collect y xs) refl

IsSortedFrom-weaken :
    (low high : ℕ) (xs : IdSet) → low ≤ high → IsSortedFrom high xs → IsSortedFrom low xs
IsSortedFrom-weaken low high [] le h = tt
IsSortedFrom-weaken low high (x ∷ xs) le (here, h) = (omega arith, h)

insert-IsSortedFrom :
    (low x : ℕ) (xs : IdSet) → low ≤ x → IsSortedFrom low xs → IsSortedFrom low (insert x xs)
unfolding insert
insert-IsSortedFrom low x [] le h = (le, tt)
insert-IsSortedFrom low x (y ∷ ys) le (here, h) = ground (arith, insert-IsSortedFrom (suc y) x ys)

pub insert-IsSorted : (x : ℕ) (xs : IdSet) → IsSorted xs → IsSorted (insert x xs)
insert-IsSorted x xs = insert-IsSortedFrom 0 x xs (omega arith)

remove-IsSortedFrom :
    (low x : ℕ) (xs : IdSet) → IsSortedFrom low xs → IsSortedFrom low (remove x xs)
unfolding remove
remove-IsSortedFrom low x [] h = tt
remove-IsSortedFrom low x (y ∷ ys) (here, h) =
    let rest = remove-IsSortedFrom (suc y) x ys h in
    let low_rest = IsSortedFrom-weaken low (suc y) (remove x ys) (omega arith) rest in ground arith

pub remove-IsSorted : (x : ℕ) (xs : IdSet) → IsSorted xs → IsSorted (remove x xs)
remove-IsSorted x xs = remove-IsSortedFrom 0 x xs

pub collect-IsSorted : (xs : List ℕ) → IsSorted (collect xs)
unfolding collect
collect-IsSorted [] = tt
collect-IsSorted (x ∷ xs) = insert-IsSorted x (collect xs) (collect-IsSorted xs)

place_low : (low x : ℕ) (xs : IdSet) → x < low → IsSortedFrom low xs → place x xs ≡ x ∷ xs
unfolding place
place_low low x [] lt h = refl
place_low low x (y ∷ ys) lt (here, h) = ground arith

sort_unstable-IsSortedFrom : (low : ℕ) (xs : IdSet) → IsSortedFrom low xs → sort_unstable xs ≡ xs
unfolding sort_unstable
sort_unstable-IsSortedFrom low [] h = refl
sort_unstable-IsSortedFrom low (x ∷ xs) (here, h) =
    rw (sort_unstable-IsSortedFrom (suc x) xs h) (place_low (suc x) x xs (omega arith) h)

pub sort_unstable-IsSorted : (xs : IdSet) → IsSorted xs → sort_unstable xs ≡ xs
sort_unstable-IsSorted = sort_unstable-IsSortedFrom 0

contains_low : (low y : ℕ) (xs : IdSet) → y < low → IsSortedFrom low xs → contains y xs ≡ false
unfolding contains
contains_low low y [] lt h = refl
contains_low low y (x ∷ xs) lt (here, h) = ground (arith, contains_low (suc x) y xs)

-- Two sets with the same members are equal.
sets_ext_from :
    (low : ℕ) (xs ys : IdSet)
    → IsSortedFrom low xs
    → IsSortedFrom low ys
    → ((y : ℕ) → contains y xs ≡ contains y ys)
    → xs ≡ ys
unfolding contains
sets_ext_from low [] [] h k e = refl
sets_ext_from low [] (y ∷ ys) h (here, k) e = absurd (ground (arith, e y, ==_refl y))
sets_ext_from low (x ∷ xs) [] (here, h) k e = absurd (ground (arith, e x, ==_refl x))
sets_ext_from low (x ∷ xs) (y ∷ ys) (here, h) (there, k) e =
    let first : x ≡ y =
      ground (arith, e x, e y, contains_low (suc y) x ys, contains_low (suc x) y xs) in
    let tails : xs ≡ ys =
      sets_ext_from (suc x) xs ys h (rw first k)
        (λ z. ground (arith, e z, contains_low (suc x) z xs, contains_low (suc y) z ys)) in
    λ i. first i ∷ tails i

pub sets_ext :
    (xs ys : IdSet)
    → IsSorted xs
    → IsSorted ys
    → ((y : ℕ) → contains y xs ≡ contains y ys)
    → xs ≡ ys
sets_ext = sets_ext_from 0
