-- ===== src/Lowering/Handles.antt =====
-- transaction_ast.rs: the vectors of string handles, sorted and searched by what the handles read.
-- `none` is a panic of a handle.
pub mod Resolved
use mathlib.Core.Option
use forthdb.Prelude.{ℕ, suc, Bool, true, false, List, [], ◌∷◌, Option, none, some}
use forthdb.Prelude.Equality.{same, list_equality, nat_equality}
use forthdb.Kernel.Binding.{text_less}
use forthdb.SemanticIsa.Utf8.{Text}
use forthdb.Lowering.Syntax.{TransactionOp}
use forthdb.Lowering.Context.{StrRef, as_str}

abbrev pub and_then : {A B : Type 0} → Option A → (A → Option B) → Option B
and_then none f = none
and_then (some a) f = f a

abbrev pub both : {A : Type 0} → (Text → Text → A) → Option Text → Option Text → Option A
both f (some a) (some b) = some (f a b)
both f (some a) none = none
both f none b = none

-- A conditional on a test that may panic.
abbrev pub choose : {A : Type 0} → Option Bool → Option A → Option A → Option A
choose none a b = none
choose (some true) a b = a
choose (some false) a b = b

module _ (ops : List TransactionOp) where
  unfoldable pub place_by_key : StrRef → List StrRef → Option (List StrRef)
  place_by_key r [] = some (r ∷ [])
  place_by_key r (q ∷ qs) =
      let rest = Option.map (λ qs. q ∷ qs) (place_by_key r qs) in
      choose (both text_less (as_str ops q) (as_str ops r)) rest (some (r ∷ q ∷ qs))

  unfoldable pub sort_by_key : List StrRef → Option (List StrRef)
  sort_by_key [] = some []
  sort_by_key (r ∷ rs) = and_then (sort_by_key rs) (place_by_key r)

  unfoldable pub dedup_after : StrRef → List StrRef → Option (List StrRef)
  dedup_after last [] = some []
  dedup_after last (r ∷ rs) =
      let skipped = dedup_after last rs in
      let kept = Option.map (λ rs. r ∷ rs) (dedup_after r rs) in
      choose (both same (as_str ops r) (as_str ops last)) skipped kept

  unfoldable pub dedup_by : List StrRef → Option (List StrRef)
  unfolding dedup_after
  dedup_by [] = some []
  dedup_by (r ∷ rs) = Option.map (λ rs. r ∷ rs) (dedup_after r rs)

  -- `sort_unstable_by_key`, then `dedup_by`
  unfoldable pub tidy : List StrRef → Option (List StrRef)
  tidy rs = and_then (sort_by_key rs) dedup_by

  -- `binary_search_by_key(&key, …)` as the library documents it for sorted vectors of distinct
  -- keys: the index of the key, or none.
  unfoldable pub binary_search_by_key : Text → List StrRef → Option (Option ℕ)
  binary_search_by_key key [] = some none
  binary_search_by_key key (r ∷ rs) =
      let later = Option.map (Option.map (λ i. suc i)) (binary_search_by_key key rs) in
      let text = as_str ops r in
      choose (both same (some key) text) (some (some 0))
        (choose (both text_less (some key) text) (some none) later)

  -- `iter().position(|r| r.as_str(source) == key)`
  unfoldable pub position : Text → List StrRef → Option (Option ℕ)
  position key [] = some none
  position key (r ∷ rs) =
      let later = Option.map (Option.map (λ i. suc i)) (position key rs) in
      choose (both same (some key) (as_str ops r)) (some (some 0)) later

  -- `iter().any(|r| r.as_str(source) == key)`
  unfoldable pub any : Text → List StrRef → Option Bool
  any key [] = some false
  any key (r ∷ rs) =
      let later = any key rs in choose (both same (some key) (as_str ops r)) (some true) later

-- `unwrap()`
abbrev pub unwrap : {A : Type 0} → Option (Option A) → Option A
unwrap none = none
unwrap (some o) = o
