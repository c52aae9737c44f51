-- ===== src/Lowering/Faults.antt =====
-- transaction_ast.rs: which transactions the lowering refuses, and with which error.
pub mod Covers
pub mod Exact
use forthdb.Prelude.{Bool, List, [], ◌∷◌, ◌++◌, Option, none, some, if◌then◌else◌}
use forthdb.SemanticIsa.Utf8.{Text}
use forthdb.Lowering.Names.{contains}
use forthdb.Lowering.Syntax.{
  AtomRef, entity, literal, symbol, TransactionOp, allocate, expect_world, expect_object, define,
  forget, reject, LoweringError, duplicate_allocation, undefined_symbol,
  unsupported_dynamic_symbol_expect_object,
}

-- The symbols that are allocated somewhere, before or after their uses.
unfoldable pub allocated : List TransactionOp → List Text
allocated [] = []
allocated (allocate result ∷ ops) = result ∷ allocated ops
allocated (_ ∷ ops) = allocated ops

-- The first symbol that is allocated again.
unfoldable pub first_repeat : List Text → List TransactionOp → Option LoweringError
first_repeat seen [] = none
first_repeat seen (allocate result ∷ ops) =
    let later = first_repeat (seen ++ result ∷ []) ops in
    if contains result seen then some (duplicate_allocation result) else later
first_repeat seen (_ ∷ ops) = first_repeat seen ops

abbrev pub or_else : {A : Type 0} → Option A → Option A → Option A
or_else (some a) o = some a
or_else none o = o

abbrev pub atom_fault : List Text → AtomRef → Option LoweringError
atom_fault symbols (symbol s) = if contains s symbols then none else some (undefined_symbol s)
atom_fault symbols (entity _) = none
atom_fault symbols (literal _) = none

unfoldable pub operation_fault : List Text → TransactionOp → Option LoweringError
operation_fault symbols (expect_object _ (symbol _)) = some unsupported_dynamic_symbol_expect_object
operation_fault symbols (define _ subject _ object) =
    or_else (atom_fault symbols subject) (atom_fault symbols object)
operation_fault symbols _ = none

unfoldable pub first_fault : List Text → List TransactionOp → Option LoweringError
unfolding operation_fault
first_fault symbols [] = none
first_fault symbols (op ∷ ops) = or_else (operation_fault symbols op) (first_fault symbols ops)

-- A repeated allocation anywhere comes before every other error.
unfoldable pub fault_of : List TransactionOp → Option LoweringError
unfolding first_repeat first_fault allocated
fault_of ops = or_else (first_repeat [] ops) (first_fault (allocated ops) ops)
