-- ===== src/StackVm/Execute/Sound/Steps.antt =====
-- Each instruction keeps the trial sound and does not panic; so does the whole program.
use forthdb.Prelude.{
  ℕ, suc, ◌+◌, ◌*◌, ◌≢◌, inl, inr, arith, length, get_elem?, Option, Option-cases, Bool-cases, ◌==◌,
  List, [], ◌∷◌,
}
use forthdb.StackVm.Instruction.{none_ref, Opcode, Instruction}
use forthdb.StackVm.Exec.{Result, panic, and_then}
use forthdb.StackVm.Exec.Meets.{
  Meets, Meets-bind, Meets-pure, Meets-reading, Meets-mono, Returns-same,
}
use forthdb.StackVm.Arena.Laws.{IsWhole, live, length-live, get-ne_none}
use forthdb.StackVm.Log.{head_of}
use forthdb.StackVm.Log.Replay.{head_of-bound}
use forthdb.StackVm.Workspace.{Workspace, object_of_head, resolve_trial_object}
use forthdb.StackVm.Execute.{
  expect, check_object, execute_opcode, execute_instruction, run, checkpoint,
}
use forthdb.StackVm.Execute.Sound.{IsSound, InTrial}
use forthdb.StackVm.Execute.Sound.Stack.{
  push-InTrial, pop-InTrial, local-InTrial, store_local-InTrial, take_entity-InTrial,
}
use forthdb.StackVm.Execute.Sound.Index.{IsRef}
use forthdb.StackVm.Execute.Sound.Transition.{
  define-InTrial, forget-InTrial, resolve_trial_head-InTrial, resolve_trial_head-none,
}

object_of_head-ne_panic :
    (head : ℕ) (ws : Workspace)
    → IsWhole ws.records
    → IsRef ws.records.frontier head
    → object_of_head head ws ≢ panic
unfolding object_of_head
object_of_head-ne_panic head ws w ref = ground (arith, get-ne_none head ws.records)

check_object-ne_panic :
    (expected : ℕ) (r : Result (Option ℕ)) → r ≢ panic → and_then r (check_object expected) ≢ panic
check_object-ne_panic expected r h = ground arith

head-IsRef :
    {base : Workspace} (n m : ℕ) (ws : Workspace)
    → InTrial base n m ws
    → (slot : ℕ) → IsRef ws.records.frontier (head_of (live ws.records) slot)
head-IsRef n m ws t slot =
    let count = length-live ws.records t.extends.records.whole in
    rw count at
      (head_of-bound (live ws.records) (let h = t.room in omega (arith, count)) t.log slot)

module _ (base : Workspace) (sound : IsSound base) where
  slot-ne_panic :
      (n m : ℕ) (ws : Workspace) (slot : ℕ)
      → InTrial base n m ws
      → resolve_trial_object slot base.deltas.frontier ws ≢ panic
  unfolding resolve_trial_object
  slot-ne_panic n m ws slot t = elim (Option-cases (get_elem? base.accepted_heads slot)) [
    | inl e ↦ rw (resolve_trial_head-none base sound ws slot t.extends e) (λ p. cc)
    | inr (head, e) ↦ rw (resolve_trial_head-InTrial base sound ws slot head t e) (
        object_of_head-ne_panic (head_of (live ws.records) slot) ws t.extends.records.whole
          (head-IsRef n m ws t slot))
  ]

  expect-ne_panic :
      (n m : ℕ) (ws : Workspace) (argument expected : ℕ)
      → InTrial base n m ws
      → expect argument expected base.deltas.frontier ws ≢ panic
  unfolding expect
  expect-ne_panic n m ws argument expected t = elim (Bool-cases (argument == none_ref)) [
    | inl whole_world ↦ ground arith
    | inr one_slot ↦
        rw one_slot (check_object-ne_panic expected _ (slot-ne_panic n m ws argument t))
  ]

  weaken : (n m : ℕ) (ws : Workspace) → InTrial base (suc n) (m + 6) ws → InTrial base n m ws
  weaken n m ws t = ground arith

  opcode-InTrial :
      (n m : ℕ) (op : Opcode) (argument immediate : ℕ)
      → Meets
          (InTrial base (suc n) (m + 6))
          (λ _. InTrial base n m)
          (execute_opcode op argument immediate base.deltas.frontier)
  unfolding execute_opcode
  opcode-InTrial n m Opcode.expect_object a i = Meets-reading _ (λ ws t.
      Returns-same (InTrial base n m) _ ws (expect-ne_panic (suc n) (m + 6) ws a i t)
        (weaken n m ws t))
  opcode-InTrial n m Opcode.allocate a i =
      Meets-bind _ _ (take_entity-InTrial base (suc n) (m + 6))
        (λ v. Meets-mono (λ _. weaken n m) (push-InTrial base (suc n) (m + 6) v))
  opcode-InTrial n m Opcode.allocate_discard a i =
      Meets-bind _ _ (take_entity-InTrial base (suc n) (m + 6)) (λ v. Meets-pure tt (weaken n m))
  opcode-InTrial n m Opcode.load_local a i =
      Meets-bind _ _ (Meets-reading _ (local-InTrial base (suc n) (m + 6) a))
        (λ v. Meets-mono (λ _. weaken n m) (push-InTrial base (suc n) (m + 6) v))
  opcode-InTrial n m Opcode.store_local a i =
      Meets-bind _ _ (pop-InTrial base (suc n) (m + 6))
        (λ v. Meets-mono (λ _. weaken n m) (store_local-InTrial base (suc n) (m + 6) a v))
  opcode-InTrial n m Opcode.push_cell a i =
      Meets-mono (λ _. weaken n m) (push-InTrial base (suc n) (m + 6) i)
  opcode-InTrial n m Opcode.define a i = Meets-bind _ _ (pop-InTrial base (suc n) (m + 6)) (λ o.
      Meets-bind _ _ (pop-InTrial base (suc n) (m + 6)) (λ p.
        Meets-bind _ _ (pop-InTrial base (suc n) (m + 6))
          (λ s. define-InTrial base sound n m a s p o)))
  opcode-InTrial n m Opcode.forget a i = forget-InTrial base sound n m a
  opcode-InTrial n m Opcode.reject a i = record { at = λ ws t. tt }

  -- The program has room for one record and six index deltas an instruction.
  pub run-InTrial :
      (is : List Instruction)
      → Meets
          (InTrial base (length is) (6 * length is))
          (λ _. InTrial base 0 0)
          (run is (checkpoint base))
  unfolding run execute_instruction checkpoint
  run-InTrial [] = Meets-pure tt (λ ws t. t)
  run-InTrial (i ∷ is) =
      Meets-bind _ _
        (record {
          at = λ ws t.
              (opcode-InTrial (length is) (6 * length is) i.opcode i.argument i.immediate).at ws
                (ground arith);
        })
        (λ _. run-InTrial is)
