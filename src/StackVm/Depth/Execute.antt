-- ===== src/StackVm/Depth/Execute.antt =====
-- stack_vm.rs: `Workspace::execute` on an instruction sequence that moves the stack within its
-- depth.
use forthdb.Prelude.{ℕ, ◌+◌, refl, arith, List, Bool-cases, inl, inr, length, ltb, saturating_add}
use forthdb.StackVm.Exec.{Result, ok, err, panic, and_then}
use forthdb.StackVm.Instruction.{Instruction}
use forthdb.StackVm.Workspace.{Workspace, reserve}
use forthdb.StackVm.Execute.{
  ExecutionOutcome, accepted, rejected, checkpoint, accept, settle, execute_instructions,
  TrialCheckpoint, as_accepted,
}
use forthdb.StackVm.Depth.{Moves, IsOther, Ends}
use forthdb.StackVm.Depth.Steps.{At, run-Behaves}

-- A rejection is not of the program's own use of the stack.
abbrev pub RejectsOthers : Result (ExecutionOutcome × Workspace) → Type 0
RejectsOthers (ok (rejected e, ws)) = IsOther e
RejectsOthers (ok (accepted, ws)) = Unit
RejectsOthers (err e) = Unit
RejectsOthers panic = Unit

settle-RejectsOthers :
    (Q : Workspace → Type 0) (c : TrialCheckpoint) (r : Result (Unit {0})) (w : Workspace)
    → Ends (λ _. Q) r w
    → RejectsOthers (settle c r w)
settle-RejectsOthers Q c (ok _) w h = go (accept c w)
  where
    go : (r : Result Workspace) → RejectsOthers (and_then r as_accepted)
    go (ok v) = tt
    go (err e) = tt
    go panic = tt
settle-RejectsOthers Q c (err e) w h = h
settle-RejectsOthers Q c panic w h = tt

-- A sequence that keeps to its operands and locals is never rejected for an empty stack or for a
-- local out of range, in any workspace.
pub execute_instructions-RejectsOthers :
    (locals e : ℕ) (is : List Instruction) (ws : Workspace)
    → Moves locals 0 is e
    → RejectsOthers (execute_instructions locals is ws)
unfolding execute_instructions reserve checkpoint
execute_instructions-RejectsOthers locals e is ws m =
    elim (Bool-cases (ltb (length ws.stack) (saturating_add ws.stack_pointer locals))) [
      | inl p ↦ rw p tt
      | inr p ↦
          let reserved : Workspace = record ws {
            frame_base = ws.stack_pointer;
            stack_pointer = ws.stack_pointer + locals;
          } in
          rw p (
            settle-RejectsOthers (At ws.stack_pointer locals e) (checkpoint ws) _ _ (
              (run-Behaves ws.stack_pointer locals 0 e is (checkpoint ws) m).at reserved
                (refl, omega arith)))
    ]
