-- ===== src/Lowering/Plan.antt =====
-- The lowering on names instead of handles: what the passes gather, and what each operation becomes
-- for the sets of names.
pub mod Collects
pub mod Emits
pub mod Lowers
use forthdb.Prelude.{
  ℕ, zero, suc, ◌+◌, ◌-◌, ◌%◌, ◌^◌, Bool, true, false, List, [], ◌∷◌, ◌++◌, Option, none, some,
  length, if◌then◌else◌,
}
use forthdb.StackVm.Instruction.{Opcode, Instruction, instruction, none_ref}
use forthdb.StackVm.Instruction.Make
use forthdb.SemanticIsa.Utf8.{Text}
use forthdb.SemanticIsa.Stream.{InstructionStreamFrame, semantic_isa_version_1}
use forthdb.Lowering.Names.{search, position, contains, collect}
use forthdb.Lowering.Syntax.{
  AtomRef, entity, literal, symbol, TransactionOp, allocate, expect_world, expect_object, define,
  forget, reject, TransactionAst, LoweringError, duplicate_allocation, undefined_symbol,
  unsupported_dynamic_symbol_expect_object,
}
use forthdb.Lowering.Context.{Outcome, done, failed, panic, or_panic}

pub record Texts : Type 0 where
  pub slots : List Text
  pub predicates : List Text
  pub literals : List Text
  pub symbols : List Text

abbrev pub no_texts : Texts
no_texts = record { slots = []; predicates = []; literals = []; symbols = [] }

abbrev pub literals_of : AtomRef → List Text
literals_of (literal l) = l ∷ []
literals_of (entity _) = []
literals_of (symbol _) = []

-- The texts of one operation behind those of the operations before it.
unfoldable pub gather : TransactionOp → Texts → Texts
gather (allocate result) t = record t { symbols = t.symbols ++ result ∷ [] }
gather (expect_world _) t = t
gather (expect_object slot expected) t = record t {
  slots = t.slots ++ slot ∷ [];
  literals = t.literals ++ literals_of expected;
}
gather (define slot subject predicate object) t = record t {
  slots = t.slots ++ slot ∷ [];
  predicates = t.predicates ++ predicate ∷ [];
  literals = (t.literals ++ literals_of subject) ++ literals_of object;
}
gather (forget slot) t = record t { slots = t.slots ++ slot ∷ [] }
gather reject t = t

-- The error of the first pass at one operation.
unfoldable pub repeated : TransactionOp → Texts → Option LoweringError
repeated (allocate result) t =
    if contains result t.symbols then some (duplicate_allocation result) else none
repeated _ t = none

abbrev pub unless : {A : Type 0} → Option LoweringError → Outcome A → Outcome A
unless (some e) o = failed e
unless none o = o

unfoldable pub gather_all : List TransactionOp → Texts → Outcome Texts
gather_all [] t = done t
gather_all (op ∷ ops) t = unless (repeated op t) (gather_all ops (gather op t))

-- The sets of names that the second pass searches; the symbols keep their order.
unfoldable pub names : Texts → Texts
names t = record t {
  slots = collect t.slots;
  predicates = collect t.predicates;
  literals = collect t.literals;
}

abbrev pub and_then : {A B : Type 0} → Outcome A → (A → Outcome B) → Outcome B
and_then (done a) f = f a
and_then (failed e) f = failed e
and_then panic f = panic

module _ (n : Texts) where
  unfoldable pub literal_cell : Text → Outcome ℕ
  literal_cell l = and_then (or_panic (search l n.literals)) (λ i. done (i + length n.predicates))

  unfoldable pub slot_token : Text → Outcome ℕ
  slot_token slot = and_then (or_panic (search slot n.slots)) (λ i. done (i % 2 ^ 32))

  abbrev pub load_symbol : Text → Option ℕ → Outcome Instruction
  load_symbol s (some local) = done (Make.load_local (local % 2 ^ 32))
  load_symbol s none = failed (undefined_symbol s)

  unfoldable pub load_atom : AtomRef → Outcome Instruction
  load_atom (entity e) = done (Make.push e)
  load_atom (literal l) = and_then (literal_cell l) (λ cell. done (Make.push cell))
  load_atom (symbol s) = load_symbol s (position s n.symbols)

  unfoldable pub expected_cell : AtomRef → Outcome ℕ
  expected_cell (entity e) = done e
  expected_cell (literal l) = literal_cell l
  expected_cell (symbol _) = failed unsupported_dynamic_symbol_expect_object

  unfoldable pub emit : TransactionOp → Outcome (List Instruction)
  emit (allocate result) =
      and_then (or_panic (position result n.symbols))
        (λ local. done (Make.allocate ∷ Make.store_local (local % 2 ^ 32) ∷ []))
  emit (expect_world expected) = done (instruction Opcode.expect_object none_ref expected ∷ [])
  emit (expect_object slot expected) = and_then (slot_token slot) (λ token.
      and_then (expected_cell expected)
        (λ cell. done (instruction Opcode.expect_object token cell ∷ [])))
  emit (define slot subject predicate object) = and_then (load_atom subject) (λ first.
      and_then (or_panic (search predicate n.predicates)) (λ index.
        and_then (load_atom object) (λ second.
          and_then (slot_token slot)
            (λ token. done (first ∷ Make.push index ∷ second ∷ Make.define token ∷ [])))))
  emit (forget slot) = and_then (slot_token slot) (λ token. done (Make.forget token ∷ []))
  emit reject = done (Make.reject ∷ [])

  unfoldable pub emit_all : List TransactionOp → Outcome (List Instruction)
  emit_all [] = done []
  emit_all (op ∷ ops) =
      and_then (emit op) (λ is. and_then (emit_all ops) (λ rest. done (is ++ rest)))

-- Texts numbered from `i`, each number changed by `f`.
unfoldable pub numbered : (ℕ → ℕ) → ℕ → List Text → List (ℕ × Text)
numbered f i [] = []
numbered f i (t ∷ ts) = (f i, t) ∷ numbered f (suc i) ts

abbrev pub as_u32 : ℕ → ℕ
as_u32 i = i % 2 ^ 32

abbrev pub same_number : ℕ → ℕ
same_number i = i

abbrev pub past : ℕ → ℕ → ℕ
past offset i = i + offset

unfoldable pub plan_frame : ℕ → Texts → List Instruction → InstructionStreamFrame
unfolding numbered
plan_frame namespace n is = record {
  version = semantic_isa_version_1;
  namespace = namespace;
  dictionary = record {
    slots = numbered as_u32 0 n.slots;
    predicates = numbered same_number 0 n.predicates;
    literals = numbered (past (length n.predicates)) 0 n.literals;
  };
  local_count = length n.symbols % 2 ^ 32;
  instructions = is;
}

abbrev pub plan_from : TransactionAst → Texts → Outcome InstructionStreamFrame
plan_from ast n = and_then (emit_all n ast.operations) (λ is. done (plan_frame ast.namespace n is))

unfoldable pub plan : TransactionAst → Outcome InstructionStreamFrame
unfolding gather_all emit_all names plan_frame
plan ast = and_then (gather_all ast.operations no_texts) (λ t. plan_from ast (names t))
