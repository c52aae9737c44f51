-- ===== src/StackVm/Machine.antt =====
-- stack_vm.rs: what a run of the machine computes with, for the tests.
use forthdb.StackVm.Exec.{Result, ok, err, panic, ◌>>=◌}
use forthdb.StackVm.Arena
use forthdb.StackVm.Record.{hash_record}
use forthdb.StackVm.Workspace.{
  Workspace, with_indexes, push, pop, local, store_local, reserve, accepted_head, find_delta,
  resolve_trial_head, object_of_head, resolve_trial_object, resolve_object, ensure_slot_count,
}
use forthdb.StackVm.Execute.{
  ExecutionOutcome, execute_instructions, run, execute_instruction, execute_opcode, define, forget,
  append_record, append_delta, append_index, take_entity, append_transition,
  append_index_transition, both_sides, append_index_side, append_fact_indexes, define_record,
  forget_record, revealed_by, expect, accept, accept_heads, checkpoint, rollback,
}
use forthdb.StackVm.Epoch.{previous_record_frontier, next_root, publish_epoch, resolve_object_at}

-- Everything that a run computes with, under one name.
unfoldable pub machine : Result Workspace → Result Workspace
unfolding ◌>>=◌ with_indexes push pop local store_local reserve accepted_head find_delta
    resolve_trial_head object_of_head resolve_trial_object resolve_object ensure_slot_count
    execute_instructions run execute_instruction execute_opcode define forget append_record
    append_delta append_index take_entity append_transition append_index_transition both_sides
    append_index_side append_fact_indexes define_record forget_record revealed_by expect accept
    accept_heads checkpoint rollback previous_record_frontier next_root publish_epoch
    resolve_object_at hash_record Arena.push Arena.get Arena.active
machine r = r

abbrev pub state_of : Workspace → Result (ExecutionOutcome × Workspace) → Workspace
state_of ws (ok (_, ws')) = ws'
state_of ws (err _) = ws
state_of ws panic = ws

abbrev pub blank : Workspace
blank = with_indexes 2 8
