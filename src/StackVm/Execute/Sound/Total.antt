-- ===== src/StackVm/Execute/Sound/Total.antt =====
-- `Workspace::execute` is total on sound workspaces with room, and keeps them sound.
use forthdb.Prelude.{
  ℕ, ◌+◌, ◌*◌, ◌≤◌, ◌<◌, ◌≡◌, refl, arith, length, length-replicate, replicate, List, sym, ◌∙◌, ap,
  map, foldl, length-take-le, u64_max, Bool, zero, suc, get_elem?, some,
}
use forthdb.StackVm.Instruction.{none_ref, Instruction}
use forthdb.StackVm.Exec.{ExecError, Result, ok, err, panic}
use forthdb.StackVm.Exec.Meets.{Returns}
use forthdb.StackVm.Arena.Laws.{live, length-live, IsWhole}
use forthdb.StackVm.Arena.{PodArena}
use forthdb.StackVm.Record.{delta_of, hash_record}
use forthdb.StackVm.Log.{start, head_from}
use forthdb.StackVm.Workspace.{Workspace, reserve, new, hash_offset}
use forthdb.StackVm.Execute.{
  ExecutionOutcome, accepted, rejected, settle, after_reserve, execute_instructions, checkpoint,
  run,
}
use forthdb.StackVm.Execute.Trial.{Extends, run-Extends}
use forthdb.StackVm.Execute.Trial.Atomic.{
  SameWorld, rollback-SameWorld, framed-Extends, reserve-Extends,
}
use forthdb.StackVm.Execute.Sound.{IsSound, InTrial}
use forthdb.StackVm.Execute.Sound.Steps.{run-InTrial}
use forthdb.StackVm.Execute.Sound.Accept.{Continues, accept-IsSound}

IsWhole-of :
    {T : Type 0} (a b : PodArena T)
    → IsWhole a
    → live b ≡ live a
    → b.frontier ≡ a.frontier
    → IsWhole b
IsWhole-of a b w same count =
    omega (arith, ap length same, length-live a w, length-take-le b.frontier b.cells)

-- A workspace with the same live parts and heads is as sound.
SameWorld-IsSound : {a b : Workspace} → IsSound a → SameWorld a b → IsSound b
SameWorld-IsSound {a} {b} s w = record {
  whole = record {
    records = IsWhole-of a.records b.records s.whole.records w.records w.record_frontier;
    deltas = IsWhole-of a.deltas b.deltas s.whole.deltas w.deltas w.delta_frontier;
    index_deltas =
        IsWhole-of a.index_deltas b.index_deltas s.whole.index_deltas w.index_deltas
          w.index_frontier;
  };
  log = rw w.records s.log;
  lockstep = w.deltas ∙ s.lockstep ∙ ap (map delta_of) (sym w.records);
  heads = rw (w.records, w.heads) s.heads;
  slots = rw (w.records, w.heads) s.slots;
  small = rw w.record_frontier s.small;
  hash = w.hash ∙ s.hash ∙ ap (foldl hash_record hash_offset) (sym w.records);
  stack = rw (w.stack_pointer, w.stack_size) s.stack;
  stack_fits = rw w.stack_size s.stack_fits;
}

-- The call returns an outcome and a sound workspace that continues the old one.
pub data Completes (ws : Workspace) : Result (ExecutionOutcome × Workspace) → Type 0 where
  accepts : {ws' : Workspace} → IsSound ws' → Continues ws ws' → Completes ws (ok (accepted, ws'))
  rejects :
      {ws' : Workspace} {e : ExecError}
      → IsSound ws'
      → SameWorld ws ws'
      → Completes ws (ok (rejected e, ws'))

module _ (ws : Workspace) (sound : IsSound ws) where
  reserved-InTrial :
      (n m local_count : ℕ)
      → ws.records.frontier + n ≤ none_ref
      → ws.index_deltas.frontier + m ≤ none_ref
      → Returns
          (λ _. InTrial ws n m)
          (reserve local_count (record ws { frame_base = ws.stack_pointer })).0
          (reserve local_count (record ws { frame_base = ws.stack_pointer })).1
  unfolding reserve
  reserved-InTrial n m local_count room index_room =
      let x = framed-Extends ws sound.whole in ground arith

  settle-Completes :
      (r : Result (Unit {0})) (w : Workspace)
      → Extends ws w
      → Returns (λ _. InTrial ws 0 0) r w
      → Completes ws (settle (checkpoint ws) r w)
  settle-Completes (ok u) w x t =
      let (w', e, s, c) = accept-IsSound ws sound w t in rw e (accepts s c)
  settle-Completes (err e) w x t =
      let same = rollback-SameWorld x in rejects (SameWorld-IsSound sound same) same
  settle-Completes panic w x t = absurd t

  reserved-Completes :
      (is : List Instruction) (r : Result (Unit {0})) (w : Workspace)
      → Extends ws w
      → Returns (λ _. InTrial ws (length is) (6 * length is)) r w
      → Completes ws (after_reserve (checkpoint ws) is r w)
  reserved-Completes is (ok u) w x t =
      settle-Completes (run is (checkpoint ws) w).0 (run is (checkpoint ws) w).1
        ((run-Extends ws is (checkpoint ws)).at w x) ((run-InTrial ws sound is).at w t)
  reserved-Completes is (err e) w x t =
      let same = rollback-SameWorld x in rejects (SameWorld-IsSound sound same) same
  reserved-Completes is panic w x t = absurd t

-- On a sound workspace whose record and index arenas have room for one record and six index deltas
-- for each instruction, execution does not panic. It returns a sound workspace: either accepted,
-- and the old log is a prefix of the new one, or rejected, and all live parts are as before.
pub execute-Completes :
    (local_count : ℕ) (is : List Instruction) (ws : Workspace)
    → IsSound ws
    → ws.records.frontier + length is ≤ none_ref
    → ws.index_deltas.frontier + 6 * length is ≤ none_ref
    → Completes ws (execute_instructions local_count is ws)
unfolding execute_instructions
execute-Completes local_count is ws sound room index_room =
    reserved-Completes ws sound is _ _
      ((reserve-Extends ws local_count).at (record ws { frame_base = ws.stack_pointer })
        (framed-Extends ws sound.whole))
      (reserved-InTrial ws sound (length is) (6 * length is) local_count room index_room)

pub get_elem?-replicate : (n : ℕ) (v i : ℕ) {x : ℕ} → get_elem? (replicate n v) i ≡ some x → x ≡ v
get_elem?-replicate zero v i h = cc
get_elem?-replicate (suc n) v zero h = cc
get_elem?-replicate (suc n) v (suc i) h = get_elem?-replicate n v i h

-- A new workspace, of any number of slots and with a stack of fewer than `usize::MAX` cells, is
-- sound.
pub new-IsSound :
    (slot_count stack_capacity : ℕ) (track_indexes : Bool)
    → stack_capacity < u64_max
    → IsSound (new slot_count stack_capacity track_indexes)
unfolding new
new-IsSound slot_count stack_capacity track_indexes fits = record {
  whole = record { records = omega arith; deltas = omega arith; index_deltas = omega arith };
  log = start refl;
  lockstep = refl;
  heads = record {
    at = λ slot head e. unfold head_from in get_elem?-replicate slot_count none_ref slot e;
  };
  slots = tt;
  small = omega arith;
  hash = refl;
  stack = omega arith;
  stack_fits = rw (length-replicate {A = ℕ} stack_capacity 0) fits;
}
