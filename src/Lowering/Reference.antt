-- ===== src/Lowering/Reference.antt =====
-- transaction_ast.rs, module `tests`: `lower_to_sisa_reference`, the original lowering kept for
-- differential testing. A `BTreeMap` is an association list. The reference returns an error's
-- message; the error whose message it is stands for it.
pub mod Symbols
pub mod Numbers
pub mod Passes
pub mod Same
use forthdb.Prelude.{
  ℕ, suc, ◌+◌, ◌-◌, ◌%◌, ◌^◌, Bool, true, false, List, [], ◌∷◌, ◌++◌, Option, none, some, length,
  ◌==◌, if◌then◌else◌,
}
use forthdb.Prelude.Map.{Map, get, insert}
use forthdb.Prelude.Equality.{list_equality, nat_equality}
use forthdb.StackVm.Instruction.{Cell, SlotToken, Opcode, Instruction, instruction, none_ref}
use forthdb.StackVm.Instruction.Make
use forthdb.SemanticIsa.Utf8.{Text}
use forthdb.SemanticIsa.Stream.{InstructionStreamFrame, semantic_isa_version_1}
use forthdb.Lowering.Names
use forthdb.Lowering.Syntax.{
  AtomRef, entity, literal, symbol, TransactionOp, allocate, expect_world, expect_object, define,
  forget, reject, TransactionAst, LoweringError, duplicate_allocation, undefined_symbol,
  local_count_overflow, unsupported_dynamic_symbol_expect_object,
}
use forthdb.Lowering.Context.{Outcome, done, failed, panic, or_panic}
use forthdb.Lowering.Plan.{and_then}

pub record Sets : Type 0 where
  pub slots : List Text
  pub predicates : List Text
  pub literals : List Text
  pub symbols : Map Text ℕ
  pub local_count : ℕ

abbrev pub no_names : Sets
no_names = record { slots = []; predicates = []; literals = []; symbols = []; local_count = 0 }

abbrev pub add_literal : AtomRef → Sets → Sets
add_literal (literal l) s = record s { literals = Names.insert s.literals l }
add_literal (entity _) s = s
add_literal (symbol _) s = s

-- `contains_key`, then `insert` and `checked_add`.
abbrev pub add_symbol : Text → Option ℕ → Sets → Outcome Sets
add_symbol result (some _) s = failed (duplicate_allocation result)
add_symbol result none s =
    if s.local_count == 2 ^ 32 - 1
    then failed local_count_overflow
    else done (record s {
      symbols = insert result s.local_count s.symbols;
      local_count = s.local_count + 1;
    })

unfoldable pub collect_operation : TransactionOp → Sets → Outcome Sets
collect_operation (allocate result) s = add_symbol result (get result s.symbols) s
collect_operation (expect_world _) s = done s
collect_operation (expect_object slot expected) s =
    done (add_literal expected (record s { slots = Names.insert s.slots slot }))
collect_operation (define slot subject predicate object) s = done (
    add_literal object (
      add_literal subject (record s {
        slots = Names.insert s.slots slot;
        predicates = Names.insert s.predicates predicate;
      })))
collect_operation (forget slot) s = done (record s { slots = Names.insert s.slots slot })
collect_operation reject s = done s

unfoldable pub collect_all : List TransactionOp → Sets → Outcome Sets
unfolding collect_operation
collect_all [] s = done s
collect_all (op ∷ ops) s = and_then (collect_operation op s) (collect_all ops)

-- `for (i, name) in set.into_iter().enumerate()`: the map from a name to its number `f i`, and the
-- dictionary.
unfoldable pub number_map : (ℕ → ℕ) → ℕ → List Text → Map Text ℕ → Map Text ℕ
number_map f i [] m = m
number_map f i (t ∷ ts) m = number_map f (suc i) ts (insert t (f i) m)

unfoldable pub number_dict : (ℕ → ℕ) → ℕ → List Text → List (ℕ × Text)
number_dict f i [] = []
number_dict f i (t ∷ ts) = (f i, t) ∷ number_dict f (suc i) ts

pub record Maps : Type 0 where
  pub slot_map : Map Text SlotToken
  pub predicate_map : Map Text Cell
  pub literal_map : Map Text Cell
  pub symbols : Map Text ℕ

module _ (m : Maps) where
  abbrev pub load_symbol : Text → Option ℕ → Outcome Instruction
  load_symbol s (some local) = done (Make.load_local local)
  load_symbol s none = failed (undefined_symbol s)

  unfoldable pub load_atom : AtomRef → Outcome Instruction
  load_atom (entity e) = done (Make.push e)
  load_atom (literal l) = and_then (or_panic (get l m.literal_map)) (λ cell. done (Make.push cell))
  load_atom (symbol s) = load_symbol s (get s m.symbols)

  unfoldable pub expected_cell : AtomRef → Outcome Cell
  expected_cell (entity e) = done e
  expected_cell (literal l) = or_panic (get l m.literal_map)
  expected_cell (symbol _) = failed unsupported_dynamic_symbol_expect_object

  unfoldable pub emit : TransactionOp → Outcome (List Instruction)
  emit (allocate result) =
      and_then (or_panic (get result m.symbols))
        (λ local. done (Make.allocate ∷ Make.store_local local ∷ []))
  emit (expect_world expected) = done (instruction Opcode.expect_object none_ref expected ∷ [])
  emit (expect_object slot expected) = and_then (or_panic (get slot m.slot_map)) (λ token.
      and_then (expected_cell expected)
        (λ cell. done (instruction Opcode.expect_object token cell ∷ [])))
  emit (define slot subject predicate object) = and_then (load_atom subject) (λ first.
      and_then (or_panic (get predicate m.predicate_map)) (λ cell.
        and_then (load_atom object) (λ second.
          and_then (or_panic (get slot m.slot_map))
            (λ token. done (first ∷ Make.push cell ∷ second ∷ Make.define token ∷ [])))))
  emit (forget slot) =
      and_then (or_panic (get slot m.slot_map)) (λ token. done (Make.forget token ∷ []))
  emit reject = done (Make.reject ∷ [])

  unfoldable pub emit_all : List TransactionOp → Outcome (List Instruction)
  emit_all [] = done []
  emit_all (op ∷ ops) =
      and_then (emit op) (λ is. and_then (emit_all ops) (λ rest. done (is ++ rest)))

unfoldable pub maps_of : Sets → Maps
unfolding number_map
maps_of s = record {
  slot_map = number_map (λ i. i % 2 ^ 32) 0 s.slots [];
  predicate_map = number_map (λ i. i) 0 s.predicates [];
  literal_map =
      number_map (λ i. i + length (number_map (λ i. i) 0 s.predicates [])) 0 s.literals [];
  symbols = s.symbols;
}

unfoldable pub frame_of : ℕ → Sets → List Instruction → InstructionStreamFrame
unfolding number_dict maps_of
frame_of namespace s is = record {
  version = semantic_isa_version_1;
  namespace = namespace;
  dictionary = record {
    slots = number_dict (λ i. i % 2 ^ 32) 0 s.slots;
    predicates = number_dict (λ i. i) 0 s.predicates;
    literals = number_dict (λ i. i + length ((maps_of s).predicate_map)) 0 s.literals;
  };
  local_count = s.local_count;
  instructions = is;
}

unfoldable pub lower_to_sisa_reference : TransactionAst → Outcome InstructionStreamFrame
unfolding collect_all maps_of emit_all frame_of
lower_to_sisa_reference ast =
    and_then (collect_all ast.operations no_names) (λ s.
      and_then (emit_all (maps_of s) ast.operations) (λ is. done (frame_of ast.namespace s is)))
