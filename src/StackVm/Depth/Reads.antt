-- ===== src/StackVm/Depth/Reads.antt =====
-- stack_vm.rs: reads of the world never fail for want of an operand or of a local.
use mathlib.Core.List.{reverse}
use forthdb.Prelude.{ℕ, Option, none, some, ◌==◌, get_elem?}
use forthdb.StackVm.Exec.{Result, or_panic}
use forthdb.StackVm.Instruction.{none_ref}
use forthdb.StackVm.Arena
use forthdb.StackVm.Arena.{PodArena}
use forthdb.StackVm.Workspace.{
  Workspace, accepted_head, or_invalid_slot, find_delta, or_head, slice_from, trial_slice,
  resolve_trial_head, object_of_head, resolve_trial_object,
}
use forthdb.StackVm.Execute.{revealed_by, check_object, expect}
use forthdb.StackVm.Depth.{Others, Others-or_panic, Others-if, Others-and_then}

accepted_head-Others : (slot : ℕ) (ws : Workspace) → Others (accepted_head slot ws)
unfolding accepted_head
accepted_head-Others slot ws = go (get_elem? ws.accepted_heads slot)
  where
    go : (o : Option ℕ) → Others (or_invalid_slot o)
    go none = tt
    go (some h) = tt

trial_slice-Others :
    {T : Type 0} (frontier : ℕ) (arena : PodArena T) → Others (trial_slice frontier arena)
trial_slice-Others frontier arena =
    Others-and_then (or_panic (Arena.active arena)) _ (Others-or_panic (Arena.active arena))
      (λ xs. Others-or_panic (slice_from frontier xs))

or_head-Others : (o : Option ℕ) (r : Result ℕ) → Others r → Others (or_head o r)
or_head-Others none r h = h
or_head-Others (some x) r h = tt

pub resolve_trial_head-Others :
    (slot frontier : ℕ) (ws : Workspace) → Others (resolve_trial_head slot frontier ws)
unfolding resolve_trial_head
resolve_trial_head-Others slot frontier ws =
    Others-and_then (accepted_head slot ws) _ (accepted_head-Others slot ws) (λ _.
      Others-and_then (trial_slice frontier ws.deltas) _ (trial_slice-Others frontier ws.deltas)
        (λ trial.
          or_head-Others (find_delta slot (reverse trial)) _ (accepted_head-Others slot ws)))

object_of_head-Others : (head : ℕ) (ws : Workspace) → Others (object_of_head head ws)
unfolding object_of_head
object_of_head-Others head ws = Others-if (head == none_ref) _ _ tt (
    Others-and_then (or_panic (Arena.get head ws.records)) _
      (Others-or_panic (Arena.get head ws.records)) (λ r. tt))

check_object-Others : (x : ℕ) (o : Option ℕ) → Others (check_object x o)
check_object-Others x none = tt
check_object-Others x (some y) = Others-if (y == x) _ _ tt tt

pub expect-Others :
    (argument x frontier : ℕ) (ws : Workspace) → Others (expect argument x frontier ws)
unfolding expect resolve_trial_object
expect-Others argument x frontier ws =
    Others-if (argument == none_ref) _ _ (Others-if (ws.semantic_hash == x) _ _ tt tt) (
      Others-and_then (resolve_trial_object argument frontier ws) _
        (Others-and_then (resolve_trial_head argument frontier ws) _
          (resolve_trial_head-Others argument frontier ws) (λ head. object_of_head-Others head ws))
        (check_object-Others x))

pub revealed_by-Others : (previous : ℕ) (ws : Workspace) → Others (revealed_by previous ws)
unfolding revealed_by
revealed_by-Others previous ws = Others-if (previous == none_ref) _ _ tt (
    Others-and_then (or_panic (Arena.get previous ws.records)) _
      (Others-or_panic (Arena.get previous ws.records)) (λ r. tt))
