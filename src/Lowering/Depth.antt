-- ===== src/Lowering/Depth.antt =====
-- transaction_ast.rs and stack_vm.rs: lowered programs keep to their operands and locals.

use forthdb.Prelude.{
  ℕ, suc, ◌+◌, ◌%◌, ◌^◌, ◌<◌, ◌≡◌, sym, inl, inr, List, [], ◌∷◌, ◌++◌, Option, none, some,
  Bool-cases, arith, length, subst,
}
use native.Mathlib.Nat.{mod-eq_of_lt}
use forthdb.SemanticIsa.Utf8.{Text}
use forthdb.SemanticIsa.Stream.{InstructionStreamFrame}
use forthdb.StackVm.Instruction.{Instruction}
use forthdb.StackVm.Workspace.{Workspace}
use forthdb.StackVm.Execute.{execute_instructions}
use forthdb.StackVm.Depth.{MovesBy, Moves}
use forthdb.StackVm.Depth.Execute.{RejectsOthers, execute_instructions-RejectsOthers}
use forthdb.Lowering.Names.{contains, search, position}
use forthdb.Lowering.Syntax.{
  AtomRef, entity, literal, symbol, TransactionOp, allocate, expect_world, expect_object, define,
  forget, reject, TransactionAst,
}
use forthdb.Lowering.Context.{LoweringContext, Outcome, done, failed, panic, or_panic}
use forthdb.Lowering.Lower.{lower_to_sisa_with}
use forthdb.Lowering.Plan.{
  Texts, no_texts, names, gather_all, and_then, literal_cell, slot_token, load_symbol, load_atom,
  expected_cell, emit, emit_all, plan_frame, plan,
}
use forthdb.Lowering.Plan.Lowers.{lower_to_sisa_with-plan}
use forthdb.Lowering.Reference.Symbols.{position-contains, position-contains-false}
use forthdb.Lowering.Reference.Passes.{allocations}
use forthdb.Lowering.Reference.Same.{Counts, gather_all-Counts}

-- `Q` holds of what is returned.
abbrev Whenever : {A : Type 0} → (A → Type 0) → Outcome A → Type 0
Whenever Q (done a) = Q a
Whenever Q (failed e) = Unit
Whenever Q panic = Unit

Whenever-and_then :
    {A B : Type 0} (Q : A → Type 0) (R : B → Type 0) (o : Outcome A) (f : A → Outcome B)
    → Whenever Q o
    → ((a : A) → Q a → Whenever R (f a))
    → Whenever R (and_then o f)
Whenever-and_then Q R (done a) f h k = k a h
Whenever-and_then Q R (failed e) f h k = tt
Whenever-and_then Q R panic f h k = tt

Whenever-any : {A : Type 0} (o : Outcome A) → Whenever (λ _. Unit {0}) o
Whenever-any (done a) = tt
Whenever-any (failed e) = tt
Whenever-any panic = tt

Moves-append :
    {locals d e f : ℕ} {is js : List Instruction}
    → Moves locals d is e
    → Moves locals e js f
    → Moves locals d (is ++ js) f
Moves-append Moves.done k = k
Moves-append (Moves.step m ms) k = Moves.step m (Moves-append ms k)

module _ (n : Texts) (small : length n.symbols < 2 ^ 32) where
  abbrev locals : ℕ
  locals = length n.symbols % 2 ^ 32

  -- The number of a symbol is one of a local.
  position-local :
      (s : Text) → Whenever (λ i. i % 2 ^ 32 < locals) (or_panic (position s n.symbols))
  position-local s = elim (Bool-cases (contains s n.symbols)) [
    | inl p ↦
        let (i, found, lt) = position-contains s n.symbols p in
        rw
          (
            found,
            mod-eq_of_lt {n = i} {m = 2 ^ 32} (omega arith),
            mod-eq_of_lt {n = length n.symbols} {m = 2 ^ 32} small,
          )
          lt
    | inr p ↦ rw (position-contains-false s n.symbols p) tt
  ]

  -- An instruction that pushes one cell.
  abbrev Pushes : Instruction → Type 0
  Pushes i = (d : ℕ) → MovesBy locals d i (suc d)

  load_symbol-Pushes :
      (s : Text) (o : Option ℕ)
      → Whenever (λ i. i % 2 ^ 32 < locals) (or_panic o)
      → Whenever Pushes (load_symbol n s o)
  load_symbol-Pushes s none h = tt
  load_symbol-Pushes s (some i) h = λ d. MovesBy.load_local h

  load_atom-Pushes : (a : AtomRef) → Whenever Pushes (load_atom n a)
  unfolding load_atom
  load_atom-Pushes (entity e) = λ d. MovesBy.push_cell
  load_atom-Pushes (literal l) =
      Whenever-and_then (λ _. Unit {0}) Pushes (literal_cell n l) _
        (Whenever-any (literal_cell n l)) (λ cell _ d. MovesBy.push_cell)
  load_atom-Pushes (symbol s) = load_symbol-Pushes s (position s n.symbols) (position-local s)

  -- A sequence that leaves the stack as it was.
  abbrev IsLevel : List Instruction → Type 0
  IsLevel is = Moves locals 0 is 0

  emit-IsLevel : (op : TransactionOp) → Whenever IsLevel (emit n op)
  unfolding emit
  emit-IsLevel (allocate result) =
      Whenever-and_then _ IsLevel (or_panic (position result n.symbols)) _ (position-local result)
        (λ i lt. Moves.step MovesBy.allocate (Moves.step (MovesBy.store_local lt) Moves.done))
  emit-IsLevel (expect_world w) = Moves.step MovesBy.expect_object Moves.done
  emit-IsLevel (expect_object slot a) =
      Whenever-and_then (λ _. Unit {0}) IsLevel (slot_token n slot) _
        (Whenever-any (slot_token n slot))
        (λ token _.
          Whenever-and_then (λ _. Unit {0}) IsLevel (expected_cell n a) _
            (Whenever-any (expected_cell n a))
            (λ cell _. Moves.step MovesBy.expect_object Moves.done))
  emit-IsLevel (define slot a p b) =
      Whenever-and_then Pushes IsLevel (load_atom n a) _ (load_atom-Pushes a) (λ first m.
        Whenever-and_then (λ _. Unit {0}) IsLevel (or_panic (search p n.predicates)) _
          (Whenever-any (or_panic (search p n.predicates)))
          (λ index _.
            Whenever-and_then Pushes IsLevel (load_atom n b) _ (load_atom-Pushes b) (λ second k.
              Whenever-and_then (λ _. Unit {0}) IsLevel (slot_token n slot) _
                (Whenever-any (slot_token n slot))
                (λ token _. Moves.step (m 0) (
                  Moves.step MovesBy.push_cell
                    (Moves.step (k 2) (Moves.step MovesBy.define Moves.done)))))))
  emit-IsLevel (forget slot) =
      Whenever-and_then (λ _. Unit {0}) IsLevel (slot_token n slot) _
        (Whenever-any (slot_token n slot)) (λ token _. Moves.step MovesBy.forget Moves.done)
  emit-IsLevel reject = Moves.step MovesBy.reject Moves.done

  emit_all-IsLevel : (ops : List TransactionOp) → Whenever IsLevel (emit_all n ops)
  unfolding emit_all
  emit_all-IsLevel [] = Moves.done
  emit_all-IsLevel (op ∷ ops) =
      Whenever-and_then IsLevel IsLevel (emit n op) _ (emit-IsLevel op) (λ is m.
        Whenever-and_then IsLevel IsLevel (emit_all n ops) _ (emit_all-IsLevel ops)
          (λ rest k. Moves-append m k))

-- The stack discipline of a frame.
abbrev FrameIsLevel : InstructionStreamFrame → Type 0
FrameIsLevel frame = Moves frame.local_count 0 frame.instructions 0

Counts-small :
    (k : ℕ) (o : Outcome Texts)
    → Counts k o
    → k < 2 ^ 32
    → Whenever (λ t. length t.symbols < 2 ^ 32) o
Counts-small k (done t) h lt = omega arith
Counts-small k (failed e) h lt = tt
Counts-small k panic h lt = tt

lower_to_sisa-FrameIsLevel :
    (ast : TransactionAst) (ctx : LoweringContext)
    → allocations ast.operations < 2 ^ 32
    → Whenever FrameIsLevel (lower_to_sisa_with ast ctx).0
unfolding plan plan_frame names
lower_to_sisa-FrameIsLevel ast ctx small =
    subst (Whenever FrameIsLevel) (sym (lower_to_sisa_with-plan ast ctx)) (planned)
  where
    planned : Whenever FrameIsLevel (plan ast)
    planned =
        Whenever-and_then (λ t. length t.symbols < 2 ^ 32) FrameIsLevel
          (gather_all ast.operations no_texts) _
          (Counts-small (0 + allocations ast.operations) _
            (gather_all-Counts ast.operations no_texts) (omega arith))
          (λ t lt.
            Whenever-and_then (λ is. Moves (length t.symbols % 2 ^ 32) 0 is 0) FrameIsLevel
              (emit_all (names t) ast.operations) _ (emit_all-IsLevel (names t) lt ast.operations)
              (λ is m. m))

-- Wherever a transaction with fewer than 2^32 allocations is lowered to a frame, running the
-- frame's instructions with its count of locals, in any workspace, is never rejected for an empty
-- operand stack or for a local out of range.
pub execute_instructions-lower_to_sisa :
    (ast : TransactionAst) (ctx : LoweringContext) (frame : InstructionStreamFrame) (ws : Workspace)
    → allocations ast.operations < 2 ^ 32
    → (lower_to_sisa_with ast ctx).0 ≡ done frame
    → RejectsOthers (execute_instructions frame.local_count frame.instructions ws)
execute_instructions-lower_to_sisa ast ctx frame ws small e =
    execute_instructions-RejectsOthers frame.local_count 0 frame.instructions ws
      (subst (Whenever FrameIsLevel) e (lower_to_sisa-FrameIsLevel ast ctx small))
