-- ===== src/StackVm/Exec.antt =====
-- Actions on the workspace that may be refused (`Result<_, ExecError>`) or panic. What was written
-- before a refusal stays written, so the workspace comes back beside the error.
pub mod Preserves
pub mod Meets
use forthdb.Prelude.{Option, none, some}

pub data ExecError : Type 0 where
  explicit_rejection missing_expected_value expected_value_mismatch : ExecError
  stack_underflow stack_overflow invalid_local invalid_slot : ExecError

-- `panic` is a failed assertion or an index out of bounds.
pub data Result (A : Type 0) : Type 0 where
  ok : A → Result A
  err : ExecError → Result A
  panic : Result A

abbrev pub or_panic : {A : Type 0} → Option A → Result A
or_panic none = panic
or_panic (some a) = ok a

abbrev pub and_then : {A B : Type 0} → Result A → (A → Result B) → Result B
and_then (ok a) f = f a
and_then (err e) f = err e
and_then panic f = panic

abbrev pub Exec : Type 0 → Type 0 → Type 0
Exec S A = S → Result A × S

module _ {S A : Type 0} where
  unfoldable pub pure : A → Exec S A
  pure a s = (ok a, s)

  -- A computation that reads the workspace and writes nothing.
  unfoldable pub reading : (S → Result A) → Exec S A
  reading f s = (f s, s)

module _ {S A B : Type 0} where
  abbrev pub resume : (A → Exec S B) → Result A → S → Result B × S
  resume f (ok a) s = f a s
  resume f (err e) s = (err e, s)
  resume f panic s = (panic, s)

  infixl 5 ◌>>=◌ ◌>>◌
  -- Opening this opens `pure` and `reading` too.
  unfoldable pub ◌>>=◌ : Exec S A → (A → Exec S B) → Exec S B
  unfolding pure reading
  ◌>>=◌ m f s = resume f (m s).0 (m s).1

  abbrev pub ◌>>◌ : Exec S A → Exec S B → Exec S B
  m >> k = m >>= λ _. k
