-- ===== src/StackVm/Depth/Steps.antt =====
-- stack_vm.rs: a sequence that moves the stack within its depth never fails for want of an operand
-- or of a local.
use forthdb.Prelude.{
  ℕ, suc, ◌+◌, ◌-◌, leb, ltb, saturating_add, ◌<◌, ◌≡◌, Bool, true, false, List, [], ◌∷◌, Option,
  none, some, arith, ◌==◌, get_elem?, set, length, if◌then◌else◌, not,
}
use forthdb.StackVm.Exec.{Result, ok, panic, Exec, reading, ◌>>=◌, or_panic}
use forthdb.StackVm.Instruction.{Instruction, none_ref}
use forthdb.StackVm.Record.{FactRecord, SlotDelta, IndexDelta, delta_of}
use forthdb.StackVm.Arena
use forthdb.StackVm.Arena.{PodArena}
use forthdb.StackVm.Workspace.{Workspace, push, pop, local, store_local, resolve_trial_head}
use forthdb.StackVm.Execute.{
  put_records, put_deltas, put_index_deltas, append_record, append_delta, append_index,
  append_fact_indexes, append_index_side, both_sides, append_index_transition, append_transition,
  define_record, forget_record, define, forget, take_entity, execute_opcode, execute_instruction,
  run, TrialCheckpoint,
}
use forthdb.StackVm.Depth.{
  MovesBy, Moves, Ends, Behaves, Behaves-pure, Behaves-reading, Behaves-if, Behaves-bind,
  Others-or_panic, Others-Ends,
}
use forthdb.StackVm.Depth.Reads.{resolve_trial_head-Others, expect-Others, revealed_by-Others}

module _ (base locals : ℕ) where
  -- `d` operands above the locals of the frame at `base`.
  abbrev pub At : ℕ → Workspace → Type 0
  At d ws = (ws.frame_base ≡ base) × (ws.stack_pointer ≡ base + locals + d)

  push-Behaves : (d v : ℕ) → Behaves (At d) (λ _. At (suc d)) (push v)
  unfolding push
  push-Behaves d v = record { at = λ ws h. ground arith }

  pop-Behaves : (d : ℕ) → Behaves (At (suc d)) (λ _. At d) pop
  unfolding pop
  pop-Behaves d = record { at = λ ws (f, p). go ws f p }
    where
      go :
          (ws : Workspace)
          → ws.frame_base ≡ base
          → ws.stack_pointer ≡ base + locals + suc d
          → Ends (λ _. At d) (pop ws).0 (pop ws).1
      go ws f p =
          let above : leb ws.stack_pointer ws.frame_base ≡ false = ground arith in
          rw above (
            Others-Ends (At d) (or_panic (get_elem? ws.stack (ws.stack_pointer - 1)))
              (record ws { stack_pointer = ws.stack_pointer - 1 }) (Others-or_panic _)
              (f, omega arith))

  module _ (d : ℕ) where
    -- An action that leaves the stack as it is.
    abbrev Stays : {A : Type 0} → Exec Workspace A → Type 0
    Stays m = Behaves (At d) (λ _. At d) m

    put_records-Ends :
        (o : Option (ℕ × PodArena FactRecord)) (ws : Workspace)
        → At d ws
        → Ends (λ _. At d) (put_records o ws).0 (put_records o ws).1
    put_records-Ends none ws h = tt
    put_records-Ends (some (i, a)) ws h = h

    append_record-Stays : (r : FactRecord) → Stays (append_record r)
    unfolding append_record
    append_record-Stays r = record { at = λ ws h. put_records-Ends (Arena.push r ws.records) ws h }

    put_deltas-Ends :
        (o : Option (ℕ × PodArena SlotDelta)) (ws : Workspace)
        → At d ws
        → Ends (λ _. At d) (put_deltas o ws).0 (put_deltas o ws).1
    put_deltas-Ends none ws h = tt
    put_deltas-Ends (some (i, a)) ws h = h

    append_delta-Stays : (x : SlotDelta) → Stays (append_delta x)
    unfolding append_delta
    append_delta-Stays x = record { at = λ ws h. put_deltas-Ends (Arena.push x ws.deltas) ws h }

    put_index_deltas-Ends :
        (o : Option (ℕ × PodArena IndexDelta)) (ws : Workspace)
        → At d ws
        → Ends (λ _. At d) (put_index_deltas o ws).0 (put_index_deltas o ws).1
    put_index_deltas-Ends none ws h = tt
    put_index_deltas-Ends (some (i, a)) ws h = h

    append_index-Stays : (x : IndexDelta) → Stays (append_index x)
    unfolding append_index
    append_index-Stays x = record {
      at = λ ws h. put_index_deltas-Ends (Arena.push x ws.index_deltas) ws h;
    }

    append_fact_indexes-Stays :
        (fact : FactRecord) (i : ℕ) (added : Bool) → Stays (append_fact_indexes fact i added)
    unfolding append_fact_indexes
    append_fact_indexes-Stays fact i added =
        Behaves-bind _ _ (append_index-Stays _)
          (λ _. Behaves-bind _ _ (append_index-Stays _) (λ _. append_index-Stays _))

    append_index_side-Stays : (i : ℕ) (added : Bool) → Stays (append_index_side i added)
    unfolding append_index_side
    append_index_side-Stays i added = Behaves-if (i == none_ref) _ _ (Behaves-pure tt (λ ws h. h)) (
        Behaves-bind _ _
          (Behaves-reading _
            (λ ws h. Others-Ends (At d) _ ws (Others-or_panic (Arena.get i ws.records)) h))
          (λ fact. append_fact_indexes-Stays fact i added))

    append_index_transition-Stays : (i j : ℕ) → Stays (append_index_transition i j)
    unfolding append_index_transition both_sides
    append_index_transition-Stays i j = record { at = λ ws h. go ws h (not ws.track_indexes) }
      where
        both : Stays (append_index_side i false >>= λ _. append_index_side j true)
        both =
            Behaves-bind _ _ (append_index_side-Stays i false) (λ _. append_index_side-Stays j true)

        go :
            (ws : Workspace)
            → At d ws
            → (b : Bool)
            → Ends
                (λ _. At d)
                (if b then (ok tt, ws) else both_sides i j ws).0
                (if b then (ok tt, ws) else both_sides i j ws).1
        go ws h true = h
        go ws h false = both.at ws h

    append_transition-Stays : (r : FactRecord) → Stays (append_transition r)
    unfolding append_transition
    append_transition-Stays r = Behaves-bind _ _ (append_record-Stays r) (λ _.
        Behaves-bind _ _ (append_delta-Stays (delta_of r))
          (λ _. append_index_transition-Stays r.previous_visible r.resulting_visible))

    head-Stays : (slot frontier : ℕ) → Stays (reading (resolve_trial_head slot frontier))
    head-Stays slot frontier =
        Behaves-reading _
          (λ ws h. Others-Ends (At d) _ ws (resolve_trial_head-Others slot frontier ws) h)

    define-Stays : (slot s p o frontier : ℕ) → Stays (define slot s p o frontier)
    unfolding define
    define-Stays slot s p o frontier = Behaves-bind _ _ (head-Stays slot frontier) (λ previous.
        Behaves-bind _ _ (Behaves-reading _ (λ ws h. h))
          (λ index. append_transition-Stays (define_record slot s p o previous index)))

    forget-Stays : (slot frontier : ℕ) → Stays (forget slot frontier)
    unfolding forget
    forget-Stays slot frontier = Behaves-bind _ _ (head-Stays slot frontier) (λ previous.
        Behaves-bind _ _
          (Behaves-reading _ (λ ws h. Others-Ends (At d) _ ws (revealed_by-Others previous ws) h))
          (λ revealed. append_transition-Stays (forget_record slot previous revealed)))

    take_entity-Stays : Stays take_entity
    unfolding take_entity
    take_entity-Stays = record { at = λ ws h. h }

    in_frame :
        (a : ℕ) (ws : Workspace)
        → a < locals
        → At d ws
        → leb ws.stack_pointer (saturating_add ws.frame_base a) ≡ false
    in_frame a ws lt (f, p) = ground arith

    local-Stays : (a : ℕ) → a < locals → Stays (reading (local a))
    unfolding local
    local-Stays a lt = Behaves-reading _ (λ ws h. rw (in_frame a ws lt h) (
        Others-Ends (At d) _ ws
          (Others-or_panic (get_elem? ws.stack (saturating_add ws.frame_base a))) h))

    store_local-Stays : (a v : ℕ) → a < locals → Stays (store_local a v)
    unfolding store_local
    store_local-Stays a v lt = record {
      at = λ ws h.
          rw (in_frame a ws lt h)
            (go ws h (ltb (saturating_add ws.frame_base a) (length ws.stack)));
    }
      where
        go :
            (ws : Workspace)
            → At d ws
            → (b : Bool)
            → let r : Result (Unit {0}) × Workspace =
                if b
                then (ok tt, record ws { stack = set ws.stack (saturating_add ws.frame_base a) v })
                else (panic, ws) in
              Ends (λ _. At d) r.0 r.1
        go ws h true = h
        go ws h false = tt

  execute_instruction-Behaves :
      (d e : ℕ) (i : Instruction) (c : TrialCheckpoint)
      → MovesBy locals d i e
      → Behaves (At d) (λ _. At e) (execute_instruction i c)
  unfolding execute_instruction execute_opcode
  execute_instruction-Behaves d e i c (MovesBy.expect_object {a = a} {x = x}) =
      Behaves-reading _ (λ ws h. Others-Ends (At d) _ ws (expect-Others a x c.delta_frontier ws) h)
  execute_instruction-Behaves d e i c MovesBy.allocate =
      Behaves-bind _ _ (take_entity-Stays d) (λ v. push-Behaves d v)
  execute_instruction-Behaves d e i c MovesBy.allocate_discard =
      Behaves-bind _ _ (take_entity-Stays d) (λ v. Behaves-pure tt (λ ws h. h))
  execute_instruction-Behaves d e i c (MovesBy.load_local {a = a} lt) =
      Behaves-bind _ _ (local-Stays d a lt) (λ v. push-Behaves d v)
  execute_instruction-Behaves d e i c (MovesBy.store_local {a = a} lt) =
      Behaves-bind _ _ (pop-Behaves e) (λ v. store_local-Stays e a v lt)
  execute_instruction-Behaves d e i c (MovesBy.push_cell {x = x}) = push-Behaves d x
  execute_instruction-Behaves d e i c (MovesBy.define {a = a}) =
      Behaves-bind _ _ (pop-Behaves (suc (suc e))) (λ object.
        Behaves-bind _ _ (pop-Behaves (suc e)) (λ predicate.
          Behaves-bind _ _ (pop-Behaves e)
            (λ subject. define-Stays e a subject predicate object c.delta_frontier)))
  execute_instruction-Behaves d e i c (MovesBy.forget {a = a}) = forget-Stays d a c.delta_frontier
  execute_instruction-Behaves d e i c MovesBy.reject = record { at = λ ws h. tt }

  pub run-Behaves :
      (d e : ℕ) (is : List Instruction) (c : TrialCheckpoint)
      → Moves locals d is e
      → Behaves (At d) (λ _. At e) (run is c)
  unfolding run
  run-Behaves d e [] c Moves.done = Behaves-pure tt (λ ws h. h)
  run-Behaves d f (i ∷ is) c (Moves.step {e = e} m ms) =
      Behaves-bind _ _ (execute_instruction-Behaves d e i c m) (λ _. run-Behaves e f is c ms)
