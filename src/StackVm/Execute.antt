-- ===== src/StackVm/Execute.antt =====
-- stack_vm.rs: checkpoints, the instructions, and `Workspace::execute`.
pub mod Trial
pub mod Sound
use forthdb.Prelude.{
  ℕ, zero, suc, ◌+◌, ◌-◌, ◌*◌, ◌%◌, ◌^◌, Bool, true, false, Option, none, some, List, [], ◌∷◌, ◌++◌,
  foldl, length, get_elem?, set, drop, replicate, ltb, leb, ◌==◌, if◌then◌else◌, saturating_add,
  ◌||◌, ◌&&◌, not,
}
use forthdb.StackVm.Exec.{
  ExecError, Result, ok, err, panic, or_panic, and_then, Exec, pure, reading, ◌>>=◌, ◌>>◌,
  explicit_rejection, missing_expected_value, expected_value_mismatch, stack_overflow,
}
use forthdb.StackVm.Instruction.{Cell, SlotToken, none_ref, Opcode, Instruction, IntentProgram}
use forthdb.StackVm.Record.{
  delta_of, FactRecord, SlotDelta, IndexPermutation, IndexDelta, RecordKind, hash_record, spo, pos,
  osp,
}
use forthdb.StackVm.Arena.{PodArena}
use forthdb.StackVm.Arena
use forthdb.StackVm.Workspace.{
  Workspace, push, pop, local, store_local, reserve, accepted_head, resolve_trial_head,
  resolve_trial_object, trial_slice,
}

pub record TrialCheckpoint : Type 0 where
  pub stack_pointer : ℕ
  pub frame_base : ℕ
  pub record_frontier : ℕ
  pub delta_frontier : ℕ
  pub index_delta_frontier : ℕ
  pub next_entity : ℕ

unfoldable pub checkpoint : Workspace → TrialCheckpoint
checkpoint ws = record {
  stack_pointer = ws.stack_pointer;
  frame_base = ws.frame_base;
  record_frontier = ws.records.frontier;
  delta_frontier = ws.deltas.frontier;
  index_delta_frontier = ws.index_deltas.frontier;
  next_entity = ws.next_entity;
}

unfoldable pub rollback : TrialCheckpoint → Workspace → Workspace
rollback c ws = record ws {
  stack_pointer = c.stack_pointer;
  frame_base = c.frame_base;
  records = Arena.restore c.record_frontier ws.records;
  deltas = Arena.restore c.delta_frontier ws.deltas;
  index_deltas = Arena.restore c.index_delta_frontier ws.index_deltas;
  next_entity = c.next_entity;
}

-- The first loop of `accept`; an index out of bounds panics.
unfoldable pub accept_heads : List SlotDelta → List ℕ → Option (List ℕ)
accept_heads [] heads = some heads
accept_heads (d ∷ ds) heads =
    if ltb d.slot (length heads)
    then accept_heads ds (set heads d.slot d.resulting_visible)
    else none

unfoldable pub accept_with :
    TrialCheckpoint → Workspace → List SlotDelta → List FactRecord → Result Workspace
accept_with c ws ds rs = and_then (or_panic (accept_heads ds ws.accepted_heads)) (λ heads.
    ok (record ws {
      accepted_heads = heads;
      semantic_hash = foldl hash_record ws.semantic_hash rs;
      stack_pointer = c.stack_pointer;
      frame_base = c.frame_base;
    }))

unfoldable pub accept : TrialCheckpoint → Workspace → Result Workspace
unfolding accept_with
accept c ws =
    and_then (trial_slice c.delta_frontier ws.deltas)
      (λ ds. and_then (trial_slice c.record_frontier ws.records) (λ rs. accept_with c ws ds rs))

-- `self.records.push(record)` and the like: the index is dropped or known.
abbrev pub put_records : Option (ℕ × PodArena FactRecord) → Exec Workspace (Unit {0})
put_records none ws = (panic, ws)
put_records (some (_, arena)) ws = (ok tt, record ws { records = arena })

unfoldable pub append_record : FactRecord → Exec Workspace (Unit {0})
append_record r ws = put_records (Arena.push r ws.records) ws

abbrev pub put_deltas : Option (ℕ × PodArena SlotDelta) → Exec Workspace (Unit {0})
put_deltas none ws = (panic, ws)
put_deltas (some (_, arena)) ws = (ok tt, record ws { deltas = arena })

unfoldable pub append_delta : SlotDelta → Exec Workspace (Unit {0})
append_delta d ws = put_deltas (Arena.push d ws.deltas) ws

abbrev pub put_index_deltas : Option (ℕ × PodArena IndexDelta) → Exec Workspace (Unit {0})
put_index_deltas none ws = (panic, ws)
put_index_deltas (some (_, arena)) ws = (ok tt, record ws { index_deltas = arena })

unfoldable pub append_index : IndexDelta → Exec Workspace (Unit {0})
append_index d ws = put_index_deltas (Arena.push d ws.index_deltas) ws

unfoldable pub append_fact_indexes : FactRecord → ℕ → Bool → Exec Workspace (Unit {0})
append_fact_indexes fact index added = do
  append_index (record {
    permutation = spo;
    added = added;
    first = fact.subject;
    second = fact.predicate;
    third = fact.object;
    record_ref = index;
    slot = fact.slot;
  })
  append_index (record {
    permutation = pos;
    added = added;
    first = fact.predicate;
    second = fact.object;
    third = fact.subject;
    record_ref = index;
    slot = fact.slot;
  })
  append_index (record {
    permutation = osp;
    added = added;
    first = fact.object;
    second = fact.subject;
    third = fact.predicate;
    record_ref = index;
    slot = fact.slot;
  })

-- One `if reference != NONE { … }` of `append_index_transition`.
unfoldable pub append_index_side : ℕ → Bool → Exec Workspace (Unit {0})
append_index_side reference added = if reference == none_ref then pure tt else do
  fact ← reading (λ ws. or_panic (Arena.get reference ws.records))
  append_fact_indexes fact reference added

unfoldable pub both_sides : ℕ → ℕ → Exec Workspace (Unit {0})
both_sides previous resulting = do
  append_index_side previous false
  append_index_side resulting true

unfoldable pub append_index_transition : ℕ → ℕ → Exec Workspace (Unit {0})
append_index_transition previous resulting ws =
    if not ws.track_indexes then (ok tt, ws) else both_sides previous resulting ws

-- The record and the delta of a transition, then its index deltas.
unfoldable pub append_transition : FactRecord → Exec Workspace (Unit {0})
append_transition r = do
  append_record r
  append_delta (delta_of r)
  append_index_transition r.previous_visible r.resulting_visible

unfoldable pub define_record : SlotToken → Cell → Cell → Cell → ℕ → ℕ → FactRecord
define_record slot subject predicate object previous index = record {
  kind = RecordKind.define;
  slot = slot;
  subject = subject;
  predicate = predicate;
  object = object;
  previous_visible = previous;
  resulting_visible = index;
}

unfoldable pub forget_record : SlotToken → ℕ → ℕ → FactRecord
forget_record slot previous revealed = record {
  kind = RecordKind.forget;
  slot = slot;
  subject = 0;
  predicate = 0;
  object = 0;
  previous_visible = previous;
  resulting_visible = revealed;
}

unfoldable pub define : SlotToken → Cell → Cell → Cell → ℕ → Exec Workspace (Unit {0})
define slot subject predicate object trial_delta_frontier = do
  previous ← reading (resolve_trial_head slot trial_delta_frontier)
  index ← reading (λ ws. ok (ws.records.frontier % 2 ^ 32))
  append_transition (define_record slot subject predicate object previous index)

-- The definition that a forget reveals.
unfoldable pub revealed_by : ℕ → Workspace → Result ℕ
revealed_by previous ws =
    if previous == none_ref
    then ok none_ref
    else and_then (or_panic (Arena.get previous ws.records)) (λ r. ok r.previous_visible)

unfoldable pub forget : SlotToken → ℕ → Exec Workspace (Unit {0})
forget slot trial_delta_frontier = do
  previous ← reading (resolve_trial_head slot trial_delta_frontier)
  revealed ← reading (revealed_by previous)
  append_transition (forget_record slot previous revealed)

-- `self.next_entity.saturating_add(1)`
unfoldable pub take_entity : Exec Workspace Cell
take_entity ws = (ok ws.next_entity, record ws { next_entity = saturating_add ws.next_entity 1 })

abbrev pub check_object : Cell → Option Cell → Result (Unit {0})
check_object expected none = err missing_expected_value
check_object expected (some actual) =
    if actual == expected then ok tt else err expected_value_mismatch

-- The argument `u32::MAX` asks for the semantic hash of the whole world instead of a slot.
unfoldable pub expect : ℕ → Cell → ℕ → Workspace → Result (Unit {0})
expect argument expected trial_delta_frontier ws =
    if argument == none_ref
    then (if ws.semantic_hash == expected then ok tt else err expected_value_mismatch)
    else and_then (resolve_trial_object argument trial_delta_frontier ws) (check_object expected)

unfoldable pub execute_opcode : Opcode → ℕ → ℕ → ℕ → Exec Workspace (Unit {0})
execute_opcode Opcode.expect_object argument immediate frontier =
    reading (expect argument immediate frontier)
execute_opcode Opcode.allocate argument immediate frontier = do entity ← take_entity; push entity
execute_opcode Opcode.allocate_discard argument immediate frontier = do
  entity ← take_entity
  pure tt
execute_opcode Opcode.load_local argument immediate frontier = do
  value ← reading (local argument)
  push value
execute_opcode Opcode.store_local argument immediate frontier = do
  value ← pop
  store_local argument value
execute_opcode Opcode.push_cell argument immediate frontier = push immediate
execute_opcode Opcode.define argument immediate frontier = do
  object ← pop
  predicate ← pop
  subject ← pop
  define argument subject predicate object frontier
execute_opcode Opcode.forget argument immediate frontier = forget argument frontier
execute_opcode Opcode.reject argument immediate frontier = λ ws. (err explicit_rejection, ws)

unfoldable pub execute_instruction : Instruction → TrialCheckpoint → Exec Workspace (Unit {0})
execute_instruction i c = execute_opcode i.opcode i.argument i.immediate c.delta_frontier

-- The loop of `execute_instructions`.
unfoldable pub run : List Instruction → TrialCheckpoint → Exec Workspace (Unit {0})
run [] c = pure tt
run (i ∷ is) c = execute_instruction i c >> run is c

pub data ExecutionOutcome : Type 0 where
  accepted : ExecutionOutcome
  rejected : ExecError → ExecutionOutcome

abbrev pub as_accepted : Workspace → Result (ExecutionOutcome × Workspace)
as_accepted ws = ok (accepted, ws)

-- What follows the loop; `panic` as a value is a panic of the call.
abbrev pub settle :
    TrialCheckpoint → Result (Unit {0}) → Workspace → Result (ExecutionOutcome × Workspace)
settle c (ok _) ws = and_then (accept c ws) as_accepted
settle c (err e) ws = ok (rejected e, rollback c ws)
settle c panic ws = panic

abbrev pub after_reserve :
    TrialCheckpoint
    → List Instruction
    → Result (Unit {0})
    → Workspace
    → Result (ExecutionOutcome × Workspace)
after_reserve c is (ok _) ws = settle c (run is c ws).0 (run is c ws).1
after_reserve c is (err _) ws = ok (rejected stack_overflow, rollback c ws)
after_reserve c is panic ws = panic

unfoldable pub execute_instructions :
    ℕ → List Instruction → Workspace → Result (ExecutionOutcome × Workspace)
execute_instructions local_count is ws =
    let c = checkpoint ws in
    let framed = record ws { frame_base = ws.stack_pointer } in
    after_reserve c is (reserve local_count framed).0 (reserve local_count framed).1

pub execute : IntentProgram → Workspace → Result (ExecutionOutcome × Workspace)
execute program = execute_instructions program.local_count program.instructions
