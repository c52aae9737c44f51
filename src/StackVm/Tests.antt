-- ===== src/StackVm/Tests.antt =====
-- Runs of the machine on small programs, and the theorems at inputs that exercise it.
use forthdb.Prelude.{
  ℕ, take, ◌≤◌, ◌^◌, ◌-◌, ◌≡◌, ◌↔◌, refl, some, none, List, [], ◌∷◌, arith, true, Option,
}
use forthdb.StackVm.Exec.{Result, ok, expected_value_mismatch}
use forthdb.StackVm.Instruction.{Instruction, Opcode, from_u8, known, to_u8, from_u8-known_iff}
use forthdb.StackVm.Instruction.Make
use forthdb.StackVm.Arena.Laws.{live}
use forthdb.StackVm.Record.{WorldRoot, FactRecord, IndexDelta, pos}
use forthdb.StackVm.Index.{
  QueryPattern, matches_index, query_key, CompactIndexEntry, compact_prefix_range,
}
use forthdb.StackVm.Index.Range.{entry_of, within, within-compact_prefix_range}
use forthdb.StackVm.Snapshot.{
  from_physical_snapshot, loaded, loaded_workspace, first_invalid, heads_fit, head_object,
  resolve_object-loaded, published_snapshot-none,
}
use forthdb.StackVm.Log.{replay}
use forthdb.StackVm.Workspace.{Workspace, new, with_indexes, resolve_object}
use forthdb.StackVm.Execute.{define_record, rejected, execute_instructions}
use forthdb.StackVm.Execute.Trial.Atomic.{SameWorld, rejected-SameWorld}
use forthdb.StackVm.Execute.Sound.{IsSound}
use forthdb.StackVm.Execute.Sound.Total.{Completes, execute-Completes, new-IsSound}
use forthdb.StackVm.Machine.{blank, state_of, machine}
use forthdb.StackVm.Epoch.{publish_epoch, resolve_object_at}
use forthdb.StackVm.Epoch.Reads.{visible, resolve_object-eq-replay, resolve_object_at-eq-replay}
use forthdb.StackVm.Epoch.History.{
  executes, Reaches, here, next, Follows, Reaches-Follows, resolve_object_at-eq-resolve_object,
}

-- slot := (1, 2, value)
abbrev define_program : ℕ → ℕ → List Instruction
define_program slot value = Make.push 1 ∷ Make.push 2 ∷ Make.push value ∷ Make.define slot ∷ []

-- A define that the last instruction refuses.
abbrev bad_program : List Instruction
bad_program = Make.push 1 ∷ Make.push 2 ∷ Make.push 9 ∷ Make.define 0 ∷ Make.expect_object 0 8 ∷ []

abbrev root_of : Result (Option WorldRoot) → WorldRoot
root_of (ok (some root)) = root
root_of _ = record {
  parent = 0;
  version = 0;
  record_frontier = 0;
  slot_delta_frontier = 0;
  index_delta_frontier = 0;
  allocator_head = 0;
  world_id = 0;
}

abbrev defined : Workspace
defined = state_of blank (execute_instructions 0 (define_program 0 42) blank)

abbrev published : Workspace
published = (publish_epoch defined).1

abbrev root : WorldRoot
root = root_of (publish_epoch defined).0

abbrev forgotten : Workspace
forgotten = state_of published (execute_instructions 1 (Make.forget 0 ∷ []) published)

abbrev refused : Workspace
refused = state_of defined (execute_instructions 0 bad_program defined)

define_then_resolve : resolve_object 0 defined ≡ ok (some 42)
unfolding machine
define_then_resolve = refl

forget_then_resolve : resolve_object 0 forgotten ≡ ok none
unfolding machine
forget_then_resolve = refl

root_still_resolves : resolve_object_at root 0 forgotten ≡ ok (some 42)
unfolding machine
root_still_resolves = refl

blank-IsSound : IsSound blank
unfolding with_indexes
blank-IsSound = new-IsSound 2 8 true (omega arith)

defining : Reaches blank defined
unfolding machine
defining = next here (executes 0 (define_program 0 42) (omega arith) (omega arith) refl)

forgetting : Reaches published forgotten
unfolding machine
forgetting = next here (executes 1 (Make.forget 0 ∷ []) (omega arith) (omega arith) refl)

defined-IsSound : IsSound defined
defined-IsSound = (Reaches-Follows blank-IsSound defining).sound

publishing_it : publish_epoch defined ≡ (ok (some root), published)
unfolding machine
publishing_it = refl

refusing :
    execute_instructions 0 bad_program defined ≡ ok (rejected expected_value_mismatch, refused)
unfolding machine
refusing = refl

resolve_object_at-eq-resolve_object_example :
    resolve_object_at root 0 forgotten ≡ resolve_object 0 defined
resolve_object_at-eq-resolve_object_example =
    resolve_object_at-eq-resolve_object defined published forgotten root 0 defined-IsSound
      publishing_it forgetting

execute-Completes_example : Completes defined (execute_instructions 0 bad_program defined)
unfolding machine
execute-Completes_example =
    execute-Completes 0 bad_program defined defined-IsSound (omega arith) (omega arith)

rejected-SameWorld_example : SameWorld defined refused
rejected-SameWorld_example = rejected-SameWorld 0 bad_program defined defined-IsSound.whole refusing

resolve_object-eq-replay_example :
    resolve_object 0 defined ≡ ok (visible (replay (live defined.records) 0))
resolve_object-eq-replay_example = resolve_object-eq-replay defined defined-IsSound 0

frontier_below : root.slot_delta_frontier ≤ defined.records.frontier
unfolding machine
frontier_below = omega arith

resolve_object_at-eq-replay_example :
    resolve_object_at root 0 defined
    ≡ ok (visible (replay (take root.slot_delta_frontier (live defined.records)) 0))
resolve_object_at-eq-replay_example =
    resolve_object_at-eq-replay defined defined-IsSound root 0 frontier_below

Reaches-Follows_example : Follows blank defined
Reaches-Follows_example = Reaches-Follows blank-IsSound defining

new-IsSound_example : IsSound (new 2 8 true)
new-IsSound_example = new-IsSound 2 8 true (omega arith)

from_u8-known_iff_example :
    (from_u8 6 ≡ known Opcode.define) ↔ (◌≡◌ {A = ℕ} 6 (to_u8 Opcode.define))
from_u8-known_iff_example = from_u8-known_iff 6 Opcode.define

-- Slot 0 holds two definitions, and slot 1 none.
abbrev retained : List FactRecord
retained = define_record 0 1 2 41 (2 ^ 32 - 1) 0 ∷ define_record 0 1 2 42 0 1 ∷ []

abbrev retained_heads : List ℕ
retained_heads = 1 ∷ (2 ^ 32 - 1) ∷ []

retained-loaded :
    from_physical_snapshot 5 retained retained_heads 9
    ≡ loaded (loaded_workspace 5 retained retained_heads 9)
unfolding from_physical_snapshot first_invalid heads_fit define_record
retained-loaded = refl

resolve_object-loaded_example :
    resolve_object 0 (loaded_workspace 5 retained retained_heads 9)
    ≡ ok (head_object retained (some 1))
resolve_object-loaded_example = resolve_object-loaded 5 retained retained_heads 9 0 retained-loaded

published_snapshot-none_example :
    (root : WorldRoot) × (ws' : Workspace) × (publish_epoch
        (loaded_workspace 5 retained retained_heads 9)
      ≡ (ok (some root), ws'))
    × ((slot : ℕ) → resolve_object_at root slot ws' ≡ ok none)
published_snapshot-none_example =
    published_snapshot-none 5 retained retained_heads 9 retained-loaded (omega arith)

abbrev some_delta : IndexDelta
some_delta = record {
  permutation = pos;
  added = true;
  first = 2;
  second = 42;
  third = 1;
  record_ref = 1;
  slot = 0;
}

-- Three entries, of which the second is the delta's.
abbrev three_entries : List CompactIndexEntry
three_entries =
    record { first = 2; second = 7; third = 1; record_ref = 0; slot = 4 }
    ∷ entry_of some_delta
    ∷ record { first = 3; second = 42; third = 1; record_ref = 2; slot = 5 }
    ∷ []

within-compact_prefix_range_example :
    within 1 (compact_prefix_range three_entries (2 ∷ 42 ∷ 0 ∷ []) 2)
    ≡ matches_index some_delta (QueryPattern.predicate_object 2 42)
unfolding query_key
within-compact_prefix_range_example =
    within-compact_prefix_range three_entries 1 some_delta (QueryPattern.predicate_object 2 42)
      ((refl, (refl, tt)), ((refl, tt), (tt, tt))) refl refl
