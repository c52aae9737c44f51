-- ===== src/StackVm/Execute/Trial/Atomic.antt =====
-- A rejected intent leaves the workspace as it was, up to dead cells above the frontiers.
use forthdb.Prelude.{ℕ, ◌≡◌, refl, List, arith, length, subst}
use forthdb.StackVm.Instruction.{Instruction}
use forthdb.StackVm.Exec.{ExecError, Result, ok, err, panic, and_then}
use forthdb.StackVm.Exec.Preserves.{Preserves}
use forthdb.StackVm.Arena.Laws.{live, IsWhole}
use forthdb.StackVm.Workspace.{Workspace, reserve}
use forthdb.StackVm.Execute.{
  checkpoint, rollback, accept, run, rejected, as_accepted, settle, after_reserve,
  execute_instructions,
}
use forthdb.StackVm.Execute.Trial.{Grows-refl, Extends, run-Extends}

pub record IsWholeWorld (ws : Workspace) : Type 0 where
  pub records : IsWhole ws.records
  pub deltas : IsWhole ws.deltas
  pub index_deltas : IsWhole ws.index_deltas

-- Two workspaces that agree in everything but the contents of the stack and what the arenas hold
-- behind their frontiers.
pub record SameWorld (a b : Workspace) : Type 0 where
  pub records : live b.records ≡ live a.records
  pub deltas : live b.deltas ≡ live a.deltas
  pub index_deltas : live b.index_deltas ≡ live a.index_deltas
  pub record_frontier : b.records.frontier ≡ a.records.frontier
  pub delta_frontier : b.deltas.frontier ≡ a.deltas.frontier
  pub index_frontier : b.index_deltas.frontier ≡ a.index_deltas.frontier
  pub roots : b.roots ≡ a.roots
  pub heads : b.accepted_heads ≡ a.accepted_heads
  pub next_entity : b.next_entity ≡ a.next_entity
  pub last_root : b.last_root ≡ a.last_root
  pub version : b.version ≡ a.version
  pub hash : b.semantic_hash ≡ a.semantic_hash
  pub tracks : b.track_indexes ≡ a.track_indexes
  pub offset : b.historical_delta_offset ≡ a.historical_delta_offset
  pub stack_pointer : b.stack_pointer ≡ a.stack_pointer
  pub frame_base : b.frame_base ≡ a.frame_base
  pub stack_size : length b.stack ≡ length a.stack

module _ (ws : Workspace) (whole : IsWholeWorld ws) where
  pub framed-Extends : Extends ws (record ws { frame_base = ws.stack_pointer })
  framed-Extends = record {
    records = Grows-refl ws.records whole.records;
    deltas = Grows-refl ws.deltas whole.deltas;
    index_deltas = Grows-refl ws.index_deltas whole.index_deltas;
    roots = refl;
    heads = refl;
    last_root = refl;
    version = refl;
    hash = refl;
    tracks = refl;
    offset = refl;
    stack_size = refl;
  }

pub reserve-Extends : (base : Workspace) (n : ℕ) → Preserves (Extends base) (reserve n)
unfolding reserve
reserve-Extends base n = record { at = λ ws x. ground arith }

pub rollback-SameWorld :
    {base ws : Workspace} → Extends base ws → SameWorld base (rollback (checkpoint base) ws)
unfolding rollback checkpoint
rollback-SameWorld x = record {
  records = x.records.kept;
  deltas = x.deltas.kept;
  index_deltas = x.index_deltas.kept;
  record_frontier = refl;
  delta_frontier = refl;
  index_frontier = refl;
  roots = x.roots;
  heads = x.heads;
  next_entity = refl;
  last_root = x.last_root;
  version = x.version;
  hash = x.hash;
  tracks = x.tracks;
  offset = x.offset;
  stack_pointer = refl;
  frame_base = refl;
  stack_size = x.stack_size;
}

accepted-ne-rejected :
    {ws' : Workspace} {e : ExecError} (r : Result Workspace)
    → and_then r as_accepted ≡ ok (rejected e, ws')
    → ⊥
accepted-ne-rejected (ok w) h = cc
accepted-ne-rejected (err x) h = cc
accepted-ne-rejected panic h = cc

module _ {base ws' : Workspace} {e : ExecError} where
  settle-SameWorld :
      (r : Result (Unit {0})) (ws : Workspace)
      → Extends base ws
      → settle (checkpoint base) r ws ≡ ok (rejected e, ws')
      → SameWorld base ws'
  settle-SameWorld (ok u) ws x h = absurd (accepted-ne-rejected (accept (checkpoint base) ws) h)
  settle-SameWorld (err e') ws x h =
      let same : rollback (checkpoint base) ws ≡ ws' = cc in
      subst (SameWorld base) same (rollback-SameWorld x)
  settle-SameWorld panic ws x h = cc

  reserved-SameWorld :
      (is : List Instruction) (r : Result (Unit {0})) (ws : Workspace)
      → Extends base ws
      → after_reserve (checkpoint base) is r ws ≡ ok (rejected e, ws')
      → SameWorld base ws'
  reserved-SameWorld is (ok u) ws x h =
      settle-SameWorld (run is (checkpoint base) ws).0 (run is (checkpoint base) ws).1
        ((run-Extends base is (checkpoint base)).at ws x) h
  reserved-SameWorld is (err e') ws x h =
      let same : rollback (checkpoint base) ws ≡ ws' = cc in
      subst (SameWorld base) same (rollback-SameWorld x)
  reserved-SameWorld is panic ws x h = cc

-- An execution that is rejected, for whatever reason and at whatever instruction, leaves the live
-- records, deltas and index deltas, the heads, the allocator, the hash, the roots and the stack
-- pointer of a workspace with whole arenas as they were.
pub rejected-SameWorld :
    (local_count : ℕ) (is : List Instruction) (ws : Workspace) {e : ExecError} {ws' : Workspace}
    → IsWholeWorld ws
    → execute_instructions local_count is ws ≡ ok (rejected e, ws')
    → SameWorld ws ws'
unfolding execute_instructions
rejected-SameWorld local_count is ws whole h =
    reserved-SameWorld is _ _
      ((reserve-Extends ws local_count).at (record ws { frame_base = ws.stack_pointer })
        (framed-Extends ws whole))
      h
