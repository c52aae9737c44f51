-- ===== src/StackVm/Arena/Laws.antt =====
-- An arena is its live list: `push` appends to it, `get` indexes it, `restore` cuts it.
use forthdb.Prelude.{
  none, ◌≢◌, get_elem?-ne_none, ℕ, ◌+◌, ◌≤◌, ◌<◌, ◌≡◌, refl, some, List, [], ◌∷◌, ◌++◌, arith,
  length, get_elem?, take, length-append, length-set, length-take, take-append_left, take-length,
  take-suc-set, take-set, take-take, get_elem?-take, Bool-cases, inl, inr, ◌==◌, ltb-true, leb-true,
  set, ==_iff, if◌then◌else◌,
}
use native.Mathlib.Numerals.{add-one}
use forthdb.StackVm.Instruction.{none_ref}
use forthdb.StackVm.Arena.{PodArena, push, get, active, restore}

abbrev pub live : {T : Type 0} → PodArena T → List T
live a = take a.frontier a.cells

abbrev pub IsWhole : {T : Type 0} → PodArena T → Type 0
IsWhole a = a.frontier ≤ length a.cells

module _ {T : Type 0} where
  -- The arena after a push that does not panic.
  pub pushed : T → PodArena T → PodArena T
  pushed value a = record {
    cells =
        if a.frontier == length a.cells
        then a.cells ++ value ∷ []
        else set a.cells a.frontier value;
    frontier = a.frontier + 1;
  }

  pub push-eq-pushed :
      (v : T) (a : PodArena T)
      → IsWhole a
      → a.frontier < none_ref
      → push v a ≡ some (a.frontier, pushed v a)
  unfolding push pushed
  push-eq-pushed v a w room = ground arith

  -- A push that does not panic gives this arena.
  pub push-eq-some :
      (v : T) (a : PodArena T) {i : ℕ} {a' : PodArena T}
      → push v a ≡ some (i, a')
      → (a' ≡ pushed v a) × (a.frontier < none_ref) × IsWhole a
  unfolding push pushed
  push-eq-some v a h = ground arith

  pub frontier-pushed : (v : T) (a : PodArena T) → (pushed v a).frontier ≡ a.frontier + 1
  unfolding pushed
  frontier-pushed v a = refl

  pub pushed-IsWhole : (v : T) (a : PodArena T) → IsWhole a → IsWhole (pushed v a)
  unfolding pushed
  pushed-IsWhole v a w =
      ground (arith, length-append a.cells (v ∷ []), length-set a.cells a.frontier v)

  pub take-pushed :
      (n : ℕ) (v : T) (a : PodArena T)
      → IsWhole a
      → n ≤ a.frontier
      → take n (pushed v a).cells ≡ take n a.cells
  unfolding pushed
  take-pushed n v a w h = elim (Bool-cases (a.frontier == length a.cells)) [
    | inl e ↦ rw e (take-append_left n a.cells (v ∷ []) (omega arith))
    | inr e ↦ rw e (take-set n a.frontier a.cells v h)
  ]

  live-append :
      (v : T) (cells : List T) (n : ℕ)
      → n ≡ length cells
      → take (n + 1) (cells ++ v ∷ []) ≡ take n cells ++ v ∷ []
  live-append v cells n e = rw e (
      let m : length (cells ++ v ∷ []) ≡ length cells + 1 =
        omega (arith, length-append cells (v ∷ [])) in
      rw (← m, take-length, take-length))

  pub live-pushed : (v : T) (a : PodArena T) → IsWhole a → live (pushed v a) ≡ live a ++ v ∷ []
  unfolding pushed
  live-pushed v a w = elim (Bool-cases (a.frontier == length a.cells)) [
    | inl e ↦ rw e (live-append v a.cells a.frontier ((==_iff a.frontier (length a.cells)).0 e))
    | inr e ↦ rw (e, add-one) (take-suc-set a.frontier a.cells v (ground arith))
  ]

  pub length-live : (a : PodArena T) → IsWhole a → length (live a) ≡ a.frontier
  length-live a w = length-take a.frontier a.cells w

  pub active-eq-live : (a : PodArena T) → IsWhole a → active a ≡ some (live a)
  unfolding active
  active-eq-live a w = rw (leb-true _ _ w)

  pub get-eq : (i : ℕ) (a : PodArena T) → i < a.frontier → get i a ≡ get_elem? (live a) i
  unfolding get
  get-eq i a h = rw (ltb-true _ _ h, get_elem?-take a.frontier i a.cells h)

  pub get-ne_none : (i : ℕ) (a : PodArena T) → IsWhole a → i < a.frontier → get i a ≢ none
  unfolding get
  get-ne_none i a w h = ground (arith, get_elem?-ne_none a.cells i)

  pub live-restore :
      (n : ℕ) (a : PodArena T) → n ≤ a.frontier → live (restore n a) ≡ take n (live a)
  live-restore n a h = rw (take-take n a.frontier a.cells h)
