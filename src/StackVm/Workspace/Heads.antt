-- ===== src/StackVm/Workspace/Heads.antt =====
-- The head that a trial sees is the one that its log determines.
use mathlib.Core.List.{reverse, reverse-cons, foldl-append}
use forthdb.Prelude.{
  ℕ, ◌≤◌, ◌≡◌, refl, sym, none, some, List, [], ◌∷◌, ◌++◌, arith, length, get_elem?, take, drop,
  map, foldl, zero, suc, leb-true, take-append-drop, ◌∙◌, ap, Bool-cases, inl, inr, ◌==◌,
}
use forthdb.StackVm.Instruction.{none_ref}
use forthdb.StackVm.Record.{SlotDelta, delta_of}
use forthdb.StackVm.Exec.{Result, ok, err, invalid_slot}
use forthdb.StackVm.Arena
use forthdb.StackVm.Arena.Laws.{live, IsWhole, active-eq-live, length-live}
use forthdb.StackVm.Log.{Log, head_from, head_of, later}
use forthdb.StackVm.Workspace.{
  Workspace, accepted_head, find_delta, or_head, resolve_trial_head, trial_slice,
}

find_delta-append :
    (slot : ℕ) (a b : List SlotDelta) (r : Result ℕ)
    → or_head (find_delta slot (a ++ b)) r
      ≡ or_head (find_delta slot a) (or_head (find_delta slot b) r)
unfolding find_delta
find_delta-append slot [] b r = refl
find_delta-append slot (d ∷ a) b r = ground (arith, find_delta-append slot a b r)

-- The first match from the back is the last word on the slot.
pub find_delta-reverse :
    (slot head : ℕ) (log : Log)
    → or_head (find_delta slot (reverse (map delta_of log))) (ok head)
      ≡ ok (head_from head log slot)
unfolding head_from find_delta
find_delta-reverse slot head [] = refl
find_delta-reverse slot head (r ∷ log) =
    rw (reverse-cons, find_delta-append)
      (elim (Bool-cases (r.slot == slot)) [
        | inl own ↦ rw own (find_delta-reverse slot r.resulting_visible log)
        | inr other ↦ rw other (find_delta-reverse slot head log)
      ])

pub drop-map : (n : ℕ) (log : Log) → drop n (map delta_of log) ≡ map delta_of (drop n log)
drop-map zero log = refl
drop-map (suc n) [] = refl
drop-map (suc n) (r ∷ log) = drop-map n log

pub head_of-split :
    (n : ℕ) (log : Log) (slot : ℕ)
    → head_from (head_of (take n log) slot) (drop n log) slot ≡ head_of log slot
unfolding head_from
head_of-split n log slot =
    sym (foldl-append (later slot) none_ref (take n log) (drop n log))
    ∙ ap (λ l. foldl (later slot) none_ref l) (take-append-drop n log)

module _ (ws : Workspace) (n : ℕ) where
  pub trial_slice-eq :
      {T : Type 0} (a : Arena.PodArena T)
      → IsWhole a
      → n ≤ a.frontier
      → trial_slice n a ≡ ok (drop n (live a))
  trial_slice-eq a w h =
      rw (active-eq-live a w, leb-true n (length (live a)) (omega (arith, length-live a w)))

  pub resolve_trial_head-eq :
      (slot head : ℕ)
      → IsWhole ws.deltas
      → n ≤ ws.deltas.frontier
      → live ws.deltas ≡ map delta_of (live ws.records)
      → get_elem? ws.accepted_heads slot ≡ some head
      → resolve_trial_head slot n ws ≡ ok (head_from head (drop n (live ws.records)) slot)
  unfolding resolve_trial_head accepted_head
  resolve_trial_head-eq slot head whole below lockstep accepted =
      rw (accepted, trial_slice-eq ws.deltas whole below, lockstep, drop-map)
        (find_delta-reverse slot head (drop n (live ws.records)))

  pub resolve_trial_head-invalid :
      (slot : ℕ)
      → get_elem? ws.accepted_heads slot ≡ none
      → resolve_trial_head slot n ws ≡ err invalid_slot
  unfolding resolve_trial_head accepted_head
  resolve_trial_head-invalid slot e = rw e
