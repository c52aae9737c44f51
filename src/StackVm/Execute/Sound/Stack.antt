-- ===== src/StackVm/Execute/Sound/Stack.antt =====
-- The operations on the stack and the allocator, in a trial.
use forthdb.Prelude.{ℕ, ◌-◌, arith, length-set, get_elem?-ne_none, saturating_add}
use forthdb.StackVm.Exec.Meets.{Meets, Returns}
use forthdb.StackVm.Workspace.{Workspace, push, pop, local, store_local}
use forthdb.StackVm.Execute.{take_entity}
use forthdb.StackVm.Execute.Sound.{InTrial}

module _ (base : Workspace) (n m : ℕ) where
  pub push-InTrial : (v : ℕ) → Meets (InTrial base n m) (λ _. InTrial base n m) (push v)
  unfolding push
  push-InTrial v = record { at = λ ws t. ground (arith, length-set ws.stack ws.stack_pointer v) }

  pub pop-InTrial : Meets (InTrial base n m) (λ _. InTrial base n m) pop
  unfolding pop
  pop-InTrial = record {
    at = λ ws t. ground (arith, get_elem?-ne_none ws.stack (ws.stack_pointer - 1));
  }

  pub local-InTrial :
      (i : ℕ)
      → (ws : Workspace) → InTrial base n m ws
      → Returns (λ _. InTrial base n m) (local i ws) ws
  unfolding local
  local-InTrial i ws t = ground (arith, get_elem?-ne_none ws.stack (saturating_add ws.frame_base i))

  pub store_local-InTrial :
      (i v : ℕ) → Meets (InTrial base n m) (λ _. InTrial base n m) (store_local i v)
  unfolding store_local
  store_local-InTrial i v = record {
    at = λ ws t. ground (arith, length-set ws.stack (saturating_add ws.frame_base i) v);
  }

  pub take_entity-InTrial : Meets (InTrial base n m) (λ _. InTrial base n m) take_entity
  unfolding take_entity
  take_entity-InTrial = record { at = λ ws t. ground arith }
