-- ===== src/StackVm/Depth.antt =====
-- stack_vm.rs: how an instruction sequence moves the operand stack above its locals, and the
-- actions that fail only for reasons other than an empty stack or a local out of range.
pub mod Reads
pub mod Steps
pub mod Execute
use forthdb.Prelude.{
  ℕ, suc, ◌<◌, Bool, true, false, if◌then◌else◌, List, [], ◌∷◌, Option, none, some,
}
use forthdb.StackVm.Exec.{
  ExecError, explicit_rejection, missing_expected_value, expected_value_mismatch, stack_underflow,
  stack_overflow, invalid_local, invalid_slot, Result, ok, err, panic, or_panic, and_then, Exec,
  pure, reading, resume, ◌>>=◌,
}
use forthdb.StackVm.Instruction.{Opcode, Instruction, instruction}

-- `MovesBy locals d i e`: with `d` operands above the locals, `i` runs and leaves `e` of them.
pub data MovesBy (locals : ℕ) : ℕ → Instruction → ℕ → Type 0 where
  expect_object : {d a x : ℕ} → MovesBy locals d (instruction Opcode.expect_object a x) d
  allocate : {d a x : ℕ} → MovesBy locals d (instruction Opcode.allocate a x) (suc d)
  allocate_discard : {d a x : ℕ} → MovesBy locals d (instruction Opcode.allocate_discard a x) d
  load_local :
      {d a x : ℕ} → a < locals → MovesBy locals d (instruction Opcode.load_local a x) (suc d)
  store_local :
      {d a x : ℕ} → a < locals → MovesBy locals (suc d) (instruction Opcode.store_local a x) d
  push_cell : {d a x : ℕ} → MovesBy locals d (instruction Opcode.push_cell a x) (suc d)
  define : {d a x : ℕ} → MovesBy locals (suc (suc (suc d))) (instruction Opcode.define a x) d
  forget : {d a x : ℕ} → MovesBy locals d (instruction Opcode.forget a x) d
  reject : {d a x : ℕ} → MovesBy locals d (instruction Opcode.reject a x) d

pub data Moves (locals : ℕ) : ℕ → List Instruction → ℕ → Type 0 where
  done : {d : ℕ} → Moves locals d [] d
  step :
      {d e f : ℕ} {i : Instruction} {is : List Instruction}
      → MovesBy locals d i e
      → Moves locals e is f
      → Moves locals d (i ∷ is) f

-- Not the program's own use of the stack.
abbrev pub IsOther : ExecError → Type 0
IsOther stack_underflow = ⊥
IsOther invalid_local = ⊥
IsOther explicit_rejection = Unit
IsOther missing_expected_value = Unit
IsOther expected_value_mismatch = Unit
IsOther stack_overflow = Unit
IsOther invalid_slot = Unit

abbrev pub Ends : {S A : Type 0} → (A → S → Type 0) → Result A → S → Type 0
Ends Q (ok a) s = Q a s
Ends Q (err e) s = IsOther e
Ends Q panic s = Unit

-- From `P`, where the action returns `Q` holds, and where it fails the error is another one.
pub record Behaves {S A : Type 0} (P : S → Type 0) (Q : A → S → Type 0) (m : Exec S A)
    : Type 0 where
  pub at : (s : S) → P s → Ends Q (m s).0 (m s).1

module _ {S A : Type 0} where
  pub Behaves-pure :
      {P : S → Type 0} {Q : A → S → Type 0} (a : A) → ((s : S) → P s → Q a s) → Behaves P Q (pure a)
  unfolding pure
  Behaves-pure a h = record { at = h }

  pub Behaves-reading :
      {P : S → Type 0} {Q : A → S → Type 0} (f : S → Result A)
      → ((s : S) → P s → Ends Q (f s) s)
      → Behaves P Q (reading f)
  unfolding reading
  Behaves-reading f h = record { at = h }

  pub Behaves-if :
      {P : S → Type 0} {Q : A → S → Type 0} (b : Bool) (m n : Exec S A)
      → Behaves P Q m
      → Behaves P Q n
      → Behaves P Q (if b then m else n)
  Behaves-if true m n h k = h
  Behaves-if false m n h k = k

module _ {S A B : Type 0} {Q : A → S → Type 0} {R : B → S → Type 0} where
  Behaves-resume :
      (f : A → Exec S B)
      → ((a : A) → Behaves (Q a) R (f a))
      → (r : Result A) (s : S) → Ends Q r s
      → Ends R (resume f r s).0 (resume f r s).1
  Behaves-resume f k (ok a) s h = (k a).at s h
  Behaves-resume f k (err e) s h = h
  Behaves-resume f k panic s h = tt

  pub Behaves-bind :
      {P : S → Type 0} (m : Exec S A) (f : A → Exec S B)
      → Behaves P Q m
      → ((a : A) → Behaves (Q a) R (f a))
      → Behaves P R (m >>= f)
  unfolding ◌>>=◌
  Behaves-bind m f h k = record { at = λ s p. Behaves-resume f k (m s).0 (m s).1 (h.at s p) }

-- A result that is no error of the stack or the locals. An index out of bounds is a panic.
abbrev pub Others : {A : Type 0} → Result A → Type 0
Others (ok a) = Unit
Others (err e) = IsOther e
Others panic = Unit

module _ {A : Type 0} where
  pub Others-or_panic : (o : Option A) → Others (or_panic o)
  Others-or_panic none = tt
  Others-or_panic (some a) = tt

  pub Others-if : (b : Bool) (r q : Result A) → Others r → Others q → Others (if b then r else q)
  Others-if true r q h k = h
  Others-if false r q h k = k

  pub Others-Ends :
      {S : Type 0} (P : S → Type 0) (r : Result A) (s : S) → Others r → P s → Ends (λ _. P) r s
  Others-Ends P (ok a) s h p = p
  Others-Ends P (err e) s h p = h
  Others-Ends P panic s h p = tt

module _ {A B : Type 0} where
  pub Others-and_then :
      (r : Result A) (f : A → Result B)
      → Others r
      → ((a : A) → Others (f a))
      → Others (and_then r f)
  Others-and_then (ok a) f h k = k a
  Others-and_then (err e) f h k = h
  Others-and_then panic f h k = tt
