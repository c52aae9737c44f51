-- ===== src/StackVm/Execute/Trial.antt =====
-- What a trial leaves alone: everything below its checkpoint, and the published state.
pub mod Atomic
use forthdb.Prelude.{
  Bool, ℕ, ◌+◌, ◌≤◌, ◌<◌, ◌≡◌, refl, Option, none, some, List, [], ◌∷◌, arith, take, length,
  length-set, ◌∙◌, saturating_add,
}
use forthdb.StackVm.Instruction.{none_ref, Opcode, Instruction}
use forthdb.StackVm.Record.{FactRecord, SlotDelta, IndexDelta}
use forthdb.StackVm.Exec.{Result, ok, err, panic, Exec, pure, reading, ◌>>=◌}
use forthdb.StackVm.Exec.Preserves.{Preserves, Preserves-bind, preserves_rules}
use forthdb.StackVm.Arena.{PodArena}
use forthdb.StackVm.Arena
use forthdb.StackVm.Arena.Laws.{
  live, IsWhole, pushed, push-eq-some, take-pushed, pushed-IsWhole, frontier-pushed,
}
use forthdb.StackVm.Workspace.{Workspace, push, pop, store_local, reserve}
use forthdb.StackVm.Execute.{
  put_records, put_deltas, put_index_deltas, append_record, append_delta, append_index, take_entity,
  append_transition, append_index_transition, append_index_side, append_fact_indexes, both_sides,
  define, forget, execute_opcode, execute_instruction, run, TrialCheckpoint,
}

-- `a` still has the live part of `base` as its lowest cells.
pub record Grows {T : Type 0} (base a : PodArena T) : Type 0 where
  pub above : base.frontier ≤ a.frontier
  pub whole : IsWhole a
  pub kept : take base.frontier a.cells ≡ live base

pub Grows-refl : {T : Type 0} (a : PodArena T) → IsWhole a → Grows a a
Grows-refl a w = record { above = omega arith; whole = w; kept = refl }

pub Grows-pushed :
    {T : Type 0} (v : T) {base a : PodArena T} → Grows base a → Grows base (pushed v a)
Grows-pushed v {base} {a} g = record {
  above = rw frontier-pushed (let h = g.above in omega arith);
  whole = pushed-IsWhole v a g.whole;
  kept = take-pushed base.frontier v a g.whole g.above ∙ g.kept;
}

Grows-push :
    {T : Type 0} (v : T) (base a : PodArena T) (i : ℕ) (a' : PodArena T)
    → Arena.push v a ≡ some (i, a')
    → Grows base a
    → Grows base a'
Grows-push v base a i a' e g = let (same, _, _) = push-eq-some v a e in rw same (Grows-pushed v g)

pub record Extends (base ws : Workspace) : Type 0 where
  pub records : Grows base.records ws.records
  pub deltas : Grows base.deltas ws.deltas
  pub index_deltas : Grows base.index_deltas ws.index_deltas
  pub roots : ws.roots ≡ base.roots
  pub heads : ws.accepted_heads ≡ base.accepted_heads
  pub last_root : ws.last_root ≡ base.last_root
  pub version : ws.version ≡ base.version
  pub hash : ws.semantic_hash ≡ base.semantic_hash
  pub tracks : ws.track_indexes ≡ base.track_indexes
  pub offset : ws.historical_delta_offset ≡ base.historical_delta_offset
  pub stack_size : length ws.stack ≡ length base.stack

module _ (base : Workspace) where
  push-Extends : (v : ℕ) → Preserves (Extends base) (push v)
  unfolding push
  push-Extends v = record { at = λ ws x. ground (arith, length-set ws.stack ws.stack_pointer v) }

  pop-Extends : Preserves (Extends base) pop
  unfolding pop
  pop-Extends = record { at = λ ws x. ground arith }

  store_local-Extends : (i v : ℕ) → Preserves (Extends base) (store_local i v)
  unfolding store_local
  store_local-Extends i v = record {
    at = λ ws x. ground (arith, length-set ws.stack (saturating_add ws.frame_base i) v);
  }

  put_records-Extends :
      (ws : Workspace)
      → Extends base ws
      → (o : Option (ℕ × PodArena FactRecord))
      → ((i : ℕ) (a : PodArena FactRecord) → o ≡ some (i, a) → Grows base.records a)
      → Extends base (put_records o ws).1
  put_records-Extends ws x none g = x
  put_records-Extends ws x (some (i, a)) g =
      let grown : Grows base.records a = g i a refl in ground arith

  pub append_record-Extends : (r : FactRecord) → Preserves (Extends base) (append_record r)
  unfolding append_record
  append_record-Extends r = record {
    at = λ ws x.
        put_records-Extends ws x (Arena.push r ws.records)
          (λ i a e. Grows-push r base.records ws.records i a e x.records);
  }

  put_deltas-Extends :
      (ws : Workspace)
      → Extends base ws
      → (o : Option (ℕ × PodArena SlotDelta))
      → ((i : ℕ) (a : PodArena SlotDelta) → o ≡ some (i, a) → Grows base.deltas a)
      → Extends base (put_deltas o ws).1
  put_deltas-Extends ws x none g = x
  put_deltas-Extends ws x (some (i, a)) g =
      let grown : Grows base.deltas a = g i a refl in ground arith

  pub append_delta-Extends : (d : SlotDelta) → Preserves (Extends base) (append_delta d)
  unfolding append_delta
  append_delta-Extends d = record {
    at = λ ws x.
        put_deltas-Extends ws x (Arena.push d ws.deltas)
          (λ i a e. Grows-push d base.deltas ws.deltas i a e x.deltas);
  }

  put_index_deltas-Extends :
      (ws : Workspace)
      → Extends base ws
      → (o : Option (ℕ × PodArena IndexDelta))
      → ((i : ℕ) (a : PodArena IndexDelta) → o ≡ some (i, a) → Grows base.index_deltas a)
      → Extends base (put_index_deltas o ws).1
  put_index_deltas-Extends ws x none g = x
  put_index_deltas-Extends ws x (some (i, a)) g =
      let grown : Grows base.index_deltas a = g i a refl in ground arith

  pub append_index-Extends : (d : IndexDelta) → Preserves (Extends base) (append_index d)
  unfolding append_index
  append_index-Extends d = record {
    at = λ ws x.
        put_index_deltas-Extends ws x (Arena.push d ws.index_deltas)
          (λ i a e. Grows-push d base.index_deltas ws.index_deltas i a e x.index_deltas);
  }

  take_entity-Extends : Preserves (Extends base) take_entity
  unfolding take_entity
  take_entity-Extends = record { at = λ ws x. ground arith }

  append_fact_indexes-Extends :
      (fact : FactRecord) (i : ℕ) (added : Bool)
      → Preserves (Extends base) (append_fact_indexes fact i added)
  unfolding append_fact_indexes
  append_fact_indexes-Extends fact i added = search (preserves_rules, append_index-Extends)

  append_index_side-Extends :
      (i : ℕ) (added : Bool) → Preserves (Extends base) (append_index_side i added)
  unfolding append_index_side
  append_index_side-Extends i added = search (preserves_rules, append_fact_indexes-Extends)

  both_sides-Extends : (i j : ℕ) → Preserves (Extends base) (both_sides i j)
  unfolding both_sides
  both_sides-Extends i j = search (preserves_rules, append_index_side-Extends)

  append_index_transition-Extends :
      (i j : ℕ) → Preserves (Extends base) (append_index_transition i j)
  unfolding append_index_transition
  append_index_transition-Extends i j = record {
    at = λ ws x. ground (arith, (both_sides-Extends i j).at ws x);
  }

  append_transition-Extends : (r : FactRecord) → Preserves (Extends base) (append_transition r)
  unfolding append_transition
  append_transition-Extends r = search (
    preserves_rules, append_record-Extends, append_delta-Extends, append_index_transition-Extends,
  )

  define-Extends : (slot s p o frontier : ℕ) → Preserves (Extends base) (define slot s p o frontier)
  unfolding define
  define-Extends slot s p o frontier = search (preserves_rules, append_transition-Extends)

  forget-Extends : (slot frontier : ℕ) → Preserves (Extends base) (forget slot frontier)
  unfolding forget
  forget-Extends slot frontier = search (preserves_rules, append_transition-Extends)

  ruleset trial_rules = (
    preserves_rules, push-Extends, pop-Extends, store_local-Extends, take_entity-Extends,
    define-Extends, forget-Extends,
  )

  execute_opcode-Extends :
      (op : Opcode) (argument immediate frontier : ℕ)
      → Preserves (Extends base) (execute_opcode op argument immediate frontier)
  unfolding execute_opcode
  execute_opcode-Extends Opcode.reject a i f = record { at = λ ws x. x }
  execute_opcode-Extends _ a i f = search trial_rules

  pub run-Extends :
      (is : List Instruction) (c : TrialCheckpoint) → Preserves (Extends base) (run is c)
  unfolding run
  run-Extends [] c = search preserves_rules
  run-Extends (i ∷ is) c =
      Preserves-bind _ _
        (unfold execute_instruction in
          execute_opcode-Extends i.opcode i.argument i.immediate c.delta_frontier)
        (λ _. run-Extends is c)
