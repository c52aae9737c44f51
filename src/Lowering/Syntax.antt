-- ===== src/Lowering/Syntax.antt =====
-- transaction_ast.rs: atoms, operations, transactions and their sources. An `EntityId` and a
-- `WorldId` (u64) are native numbers. The view types borrow what the owned types hold, so that one
-- type stands for both.
use forthdb.Prelude.{ℕ, List, [], ◌∷◌, Option, none, some, get_elem?, if◌then◌else◌}
use forthdb.Prelude.Equality.{same, list_equality, nat_equality}
use forthdb.SemanticIsa.Utf8.{Text}

abbrev pub EntityId : Type 0
EntityId = ℕ

abbrev pub WorldId : Type 0
WorldId = ℕ

pub data AtomRef : Type 0 where
  entity : EntityId → AtomRef
  literal symbol : Text → AtomRef

pub data TransactionOp : Type 0 where
  -- the name that the new entity gets
  allocate : Text → TransactionOp
  expect_world : WorldId → TransactionOp
  -- a slot and the expected value
  expect_object : Text → AtomRef → TransactionOp
  -- a slot, the subject, the predicate and the object
  define : Text → AtomRef → Text → AtomRef → TransactionOp
  forget : Text → TransactionOp
  reject : TransactionOp

pub record TransactionAst : Type 0 where
  pub namespace : ℕ
  pub operations : List TransactionOp

-- `OperationSource::operation`: an index out of bounds panics.
abbrev pub operation : List TransactionOp → ℕ → Option TransactionOp
operation = get_elem?

abbrev pub SemanticBindings : Type 0
SemanticBindings = List (Text × EntityId)

-- `SemanticBindings::get`: the first entry with the name.
unfoldable pub get : SemanticBindings → Text → Option EntityId
get [] s = none
get ((name, e) ∷ entries) s = if same name s then some e else get entries s

pub data LoweringError : Type 0 where
  duplicate_allocation undefined_symbol : Text → LoweringError
  local_count_overflow unsupported_dynamic_symbol_expect_object : LoweringError
