-- ===== src/Lowering/Tests.antt =====
-- transaction_ast.rs: runs of the lowering, and each theorem at a transaction.
use forthdb.Prelude.{◌≡◌, refl, [], ◌∷◌, arith}
use forthdb.Prelude.Equality.{list_equality, nat_equality}
use forthdb.SemanticIsa.Utf8.{Text}
use forthdb.SemanticIsa.Stream.{InstructionStreamFrame}
use forthdb.StackVm.Instruction.{Opcode, instruction}
use forthdb.StackVm.Instruction.Make
use forthdb.StackVm.Workspace.{Workspace, with_capacity}
use forthdb.StackVm.Execute.{execute_instructions}
use forthdb.StackVm.Depth.{MovesBy, Moves}
use forthdb.StackVm.Depth.Execute.{RejectsOthers, execute_instructions-RejectsOthers}
use forthdb.Kernel.Binding.{text_less}
use forthdb.Lowering.Syntax.{
  entity, literal, symbol, allocate, expect_object, define, forget, TransactionAst,
  undefined_symbol,
}
use forthdb.Lowering.Context.{
  LoweringContext, empty_context, as_str, clear, done, failed, ◌>>=◌, pure, fail, reading, modify,
}
use forthdb.Lowering.Handles
use forthdb.Lowering.Lower
use forthdb.Lowering.Lower.{lower_to_sisa_with, lower_to_sisa}
use forthdb.Lowering.Plan.{unless}
use forthdb.Lowering.Reference.{lower_to_sisa_reference}
use forthdb.Lowering.Reference.Same.{lower_to_sisa-eq-reference}
use forthdb.Lowering.Faults.{fault_of}
use forthdb.Lowering.Faults.Exact.{lower_to_sisa-fault_of}
use forthdb.Lowering.Depth.{execute_instructions-lower_to_sisa}
use forthdb.Lowering.Collision.{defining, lower_to_sisa-entity_literal}

abbrev book : Text
book = b'b' ∷ b'k' ∷ []

abbrev slot : Text
slot = b's' ∷ []

abbrev is : Text
is = b'i' ∷ b's' ∷ []

abbrev who : Text
who = b'w' ∷ []

-- A new entity becomes the subject of a fact and the old fact of another slot is forgotten.
abbrev borrow : TransactionAst
borrow = record {
  namespace = 7;
  operations =
      expect_object slot (literal book)
      ∷ allocate who
      ∷ define slot (symbol who) is (literal who)
      ∷ forget book
      ∷ [];
}

abbrev borrow_frame : InstructionStreamFrame
borrow_frame = record {
  version = 1;
  namespace = 7;
  dictionary = record {
    slots = (0, book) ∷ (1, slot) ∷ [];
    predicates = (0, is) ∷ [];
    literals = (1, book) ∷ (2, who) ∷ [];
  };
  local_count = 1;
  instructions =
      instruction Opcode.expect_object 1 1
      ∷ Make.allocate
      ∷ Make.store_local 0
      ∷ Make.load_local 0
      ∷ Make.push 0
      ∷ Make.push 2
      ∷ Make.define 1
      ∷ Make.forget 0
      ∷ [];
}

lowering : Unit {0}
unfolding lower_to_sisa lower_to_sisa_with Lower.lower_from_source Lower.build_frame
    Lower.push_dict_slots Lower.push_dict_predicates Lower.push_dict_literals Lower.lower_transient
    Lower.emit_sorted Lower.emit_operation Lower.expected_cell Lower.load_atom Lower.slot_token
    Lower.literal_cell Lower.sort_scratch Lower.collect_operation Lower.for_operations
    Lower.push_instruction Lower.push_symbol Lower.push_literal Lower.push_predicate Lower.push_slot
    Handles.any Handles.position Handles.binary_search_by_key Handles.tidy Handles.dedup_by
    Handles.dedup_after Handles.sort_by_key Handles.place_by_key as_str clear text_less ◌>>=◌ pure
    fail reading modify
lowering = tt

lower_borrow : lower_to_sisa borrow ≡ done borrow_frame
unfolding lowering
lower_borrow = refl

-- What is left in the context by a lowering that failed.
abbrev used : LoweringContext
used =
    (lower_to_sisa_with
      (record { namespace = 1; operations = forget is ∷ define is (symbol who) is (entity 4) ∷ [] })
      empty_context).1

lower_used : (lower_to_sisa_with borrow used).0 ≡ done borrow_frame
unfolding lowering
lower_used = refl

lower_undefined :
    lower_to_sisa (record { namespace = 1; operations = define is (symbol who) is (entity 4) ∷ [] })
    ≡ failed (undefined_symbol who)
unfolding lowering
lower_undefined = refl

-- A symbol may be used before it is allocated.
lower_early :
    lower_to_sisa (record {
      namespace = 1;
      operations = define is (symbol who) is (entity 4) ∷ allocate who ∷ [];
    })
    ≡ done record {
      version = 1;
      namespace = 1;
      dictionary = record { slots = (0, is) ∷ []; predicates = (0, is) ∷ []; literals = [] };
      local_count = 1;
      instructions =
          Make.load_local 0
          ∷ Make.push 0
          ∷ Make.push 4
          ∷ Make.define 0
          ∷ Make.allocate
          ∷ Make.store_local 0
          ∷ [];
    }
unfolding lowering
lower_early = refl

lower_to_sisa-eq-reference_example :
    (lower_to_sisa_with borrow used).0 ≡ lower_to_sisa_reference borrow
lower_to_sisa-eq-reference_example = lower_to_sisa-eq-reference borrow used (omega arith)

lower_to_sisa-fault_of_example :
    (frame : InstructionStreamFrame) × ((lower_to_sisa_with borrow used).0
      ≡ unless (fault_of borrow.operations) (done frame))
lower_to_sisa-fault_of_example = lower_to_sisa-fault_of borrow used

abbrev vm : Workspace
vm = with_capacity 2 4

execute_instructions-lower_to_sisa_example :
    RejectsOthers (execute_instructions borrow_frame.local_count borrow_frame.instructions vm)
execute_instructions-lower_to_sisa_example =
    execute_instructions-lower_to_sisa borrow used borrow_frame vm (omega arith) lower_used

level : Moves 1 0 borrow_frame.instructions 0
level = Moves.step MovesBy.expect_object (
    Moves.step MovesBy.allocate (
      Moves.step (MovesBy.store_local (omega arith)) (
        Moves.step (MovesBy.load_local (omega arith)) (
          Moves.step MovesBy.push_cell (
            Moves.step MovesBy.push_cell
              (Moves.step MovesBy.define (Moves.step MovesBy.forget Moves.done)))))))

execute_instructions-RejectsOthers_example :
    RejectsOthers (execute_instructions 1 borrow_frame.instructions vm)
execute_instructions-RejectsOthers_example =
    execute_instructions-RejectsOthers 1 0 borrow_frame.instructions vm level

lower_to_sisa-entity_literal_example :
    lower_to_sisa (defining slot who is (entity 1))
    ≡ lower_to_sisa (defining slot who is (literal who))
lower_to_sisa-entity_literal_example = lower_to_sisa-entity_literal slot who is
