-- ===== src/Lowering/Context.antt =====
-- transaction_ast.rs: string handles, the lowering context, and actions on it.
use forthdb.Prelude.{ℕ, List, [], Option, none, some}
use forthdb.StackVm.Instruction.{Cell, SlotToken, Instruction}
use forthdb.SemanticIsa.Utf8.{Text}
use forthdb.SemanticIsa.Stream.{InstructionStreamFrame}
use forthdb.Lowering.Syntax.{
  literal, TransactionOp, allocate, expect_object, define, forget, operation, LoweringError,
}

pub data StrRef : Type 0 where
  alloc expect_slot expect_expected def_slot def_subject def_predicate def_object : ℕ → StrRef
  forget_slot : ℕ → StrRef

-- What each handle reads in its operation; `none` is `unreachable!()`.
abbrev alloc_str : Option TransactionOp → Option Text
alloc_str (some (allocate result)) = some result
alloc_str _ = none

abbrev expect_slot_str : Option TransactionOp → Option Text
expect_slot_str (some (expect_object slot _)) = some slot
expect_slot_str _ = none

abbrev expect_expected_str : Option TransactionOp → Option Text
expect_expected_str (some (expect_object _ (literal l))) = some l
expect_expected_str _ = none

abbrev def_slot_str : Option TransactionOp → Option Text
def_slot_str (some (define slot _ _ _)) = some slot
def_slot_str _ = none

abbrev def_subject_str : Option TransactionOp → Option Text
def_subject_str (some (define _ (literal l) _ _)) = some l
def_subject_str _ = none

abbrev def_predicate_str : Option TransactionOp → Option Text
def_predicate_str (some (define _ _ predicate _)) = some predicate
def_predicate_str _ = none

abbrev def_object_str : Option TransactionOp → Option Text
def_object_str (some (define _ _ _ (literal l))) = some l
def_object_str _ = none

abbrev forget_slot_str : Option TransactionOp → Option Text
forget_slot_str (some (forget slot)) = some slot
forget_slot_str _ = none

unfoldable pub as_str : List TransactionOp → StrRef → Option Text
as_str ops (StrRef.alloc i) = alloc_str (operation ops i)
as_str ops (StrRef.expect_slot i) = expect_slot_str (operation ops i)
as_str ops (StrRef.expect_expected i) = expect_expected_str (operation ops i)
as_str ops (StrRef.def_slot i) = def_slot_str (operation ops i)
as_str ops (StrRef.def_subject i) = def_subject_str (operation ops i)
as_str ops (StrRef.def_predicate i) = def_predicate_str (operation ops i)
as_str ops (StrRef.def_object i) = def_object_str (operation ops i)
as_str ops (StrRef.forget_slot i) = forget_slot_str (operation ops i)

pub record LoweringContext : Type 0 where
  pub scratch_slots : List StrRef
  pub scratch_predicates : List StrRef
  pub scratch_literals : List StrRef
  pub scratch_symbols : List StrRef
  pub instructions : List Instruction
  pub dict_slots : List (SlotToken × Text)
  pub dict_predicates : List (Cell × Text)
  pub dict_literals : List (Cell × Text)

-- `LoweringContext::new`
abbrev pub empty_context : LoweringContext
empty_context = record {
  scratch_slots = [];
  scratch_predicates = [];
  scratch_literals = [];
  scratch_symbols = [];
  instructions = [];
  dict_slots = [];
  dict_predicates = [];
  dict_literals = [];
}

-- The vectors keep their storage, which has no part in their contents.
unfoldable pub clear : LoweringContext → LoweringContext
clear ctx = record ctx {
  scratch_slots = [];
  scratch_predicates = [];
  scratch_literals = [];
  scratch_symbols = [];
  instructions = [];
  dict_slots = [];
  dict_predicates = [];
  dict_literals = [];
}

unfoldable pub reclaim : InstructionStreamFrame → LoweringContext → LoweringContext
unfolding clear
reclaim frame ctx = clear (record ctx {
  instructions = frame.instructions;
  dict_slots = frame.dictionary.slots;
  dict_predicates = frame.dictionary.predicates;
  dict_literals = frame.dictionary.literals;
})

-- `panic` is an `unwrap` of a failed search, `unreachable!()` or an index out of bounds.
pub data Outcome (A : Type 0) : Type 0 where
  done : A → Outcome A
  failed : LoweringError → Outcome A
  panic : Outcome A

-- What was written to the context before an error stays there.
abbrev pub Lower : Type 0 → Type 0
Lower A = LoweringContext → Outcome A × LoweringContext

abbrev pub resume :
    {A B : Type 0} → (A → Lower B) → Outcome A × LoweringContext → Outcome B × LoweringContext
resume f (done a, ctx) = f a ctx
resume f (failed e, ctx) = (failed e, ctx)
resume f (panic, ctx) = (panic, ctx)

infixl 5 ◌>>=◌ ◌>>◌
unfoldable pub ◌>>=◌ : {A B : Type 0} → Lower A → (A → Lower B) → Lower B
◌>>=◌ m f ctx = resume f (m ctx)

abbrev pub ◌>>◌ : {A B : Type 0} → Lower A → Lower B → Lower B
m >> k = m >>= λ _. k

unfoldable pub pure : {A : Type 0} → A → Lower A
pure a ctx = (done a, ctx)

-- `return Err(error)`
unfoldable pub fail : {A : Type 0} → LoweringError → Lower A
fail e ctx = (failed e, ctx)

abbrev pub or_panic : {A : Type 0} → Option A → Outcome A
or_panic none = panic
or_panic (some a) = done a

-- A computation that reads the context; `none` is a panic.
unfoldable pub reading : {A : Type 0} → (LoweringContext → Option A) → Lower A
reading f ctx = (or_panic (f ctx), ctx)

unfoldable pub modify : (LoweringContext → LoweringContext) → Lower (Unit {0})
modify f ctx = (done tt, f ctx)
