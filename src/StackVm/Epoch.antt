-- ===== src/StackVm/Epoch.antt =====
-- stack_vm.rs: published roots, and reading a slot at a root.
pub mod Reads
pub mod History
use mathlib.Core.List.{reverse}
use forthdb.Prelude.{
  ℕ, ◌+◌, ◌%◌, ◌^◌, Option, none, some, List, length, take, leb, ◌==◌, if◌then◌else◌,
}
use forthdb.StackVm.Instruction.{Cell, SlotToken, none_ref}
use forthdb.StackVm.Record.{WorldRoot, SlotDelta}
use forthdb.StackVm.Exec.{Result, ok, panic, or_panic, and_then, Exec}
use forthdb.StackVm.Arena.{PodArena}
use forthdb.StackVm.Arena
use forthdb.StackVm.Workspace.{Workspace, find_delta, object_of_head}

-- The record count of the last published root.
unfoldable pub previous_record_frontier : Workspace → Option ℕ
previous_record_frontier ws =
    if ws.last_root == none_ref then some 0 else elim (Arena.get ws.last_root ws.roots) [
      | none ↦ none
      | some root ↦ some root.record_frontier
    ]

unfoldable pub next_root : Workspace → WorldRoot
next_root ws = record {
  parent = ws.last_root;
  version = (ws.version + 1) % 2 ^ 64;
  record_frontier = ws.records.frontier % 2 ^ 32;
  slot_delta_frontier = ws.deltas.frontier % 2 ^ 32;
  index_delta_frontier = ws.index_deltas.frontier % 2 ^ 32;
  allocator_head = ws.next_entity;
  world_id = ws.semantic_hash;
}

abbrev push_root :
    Workspace → Option (ℕ × PodArena WorldRoot) → Result (Option WorldRoot) × Workspace
push_root ws none = (panic, ws)
push_root ws (some (index, roots)) = (
  ok (some (next_root ws)),
  record ws { roots = roots; last_root = index; version = (ws.version + 1) % 2 ^ 64 },
)

abbrev publish_after : Option ℕ → Workspace → Result (Option WorldRoot) × Workspace
publish_after none ws = (panic, ws)
publish_after (some previous) ws =
    if ws.records.frontier == previous
    then (ok none, ws)
    else push_root ws (Arena.push (next_root ws) ws.roots)

unfoldable pub publish_epoch : Exec Workspace (Option WorldRoot)
publish_epoch ws = publish_after (previous_record_frontier ws) ws

abbrev pub slice_to : {T : Type 0} → ℕ → List T → Option (List T)
slice_to frontier xs = if leb frontier (length xs) then some (take frontier xs) else none

abbrev pub object_of_found : Option ℕ → Workspace → Result (Option Cell)
object_of_found none ws = ok none
object_of_found (some head) ws = object_of_head head ws

unfoldable pub resolve_object_at : WorldRoot → SlotToken → Workspace → Result (Option Cell)
resolve_object_at root slot ws = and_then (or_panic (Arena.active ws.deltas)) (λ deltas.
    and_then (or_panic (slice_to root.slot_delta_frontier deltas))
      (λ seen. object_of_found (find_delta slot (reverse seen)) ws))
