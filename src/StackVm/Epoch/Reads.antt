-- ===== src/StackVm/Epoch/Reads.antt =====
-- What a slot resolves to, now and at a root, is the top of its stack of definitions.

use forthdb.Prelude.{
  ℕ, ◌≤◌, ◌≡◌, refl, ap, ◌∙◌, Option, none, some, List, [], ◌∷◌, arith, length, get_elem?, foldl,
  take, drop, leb-true, Option-cases, inl, inr, get_elem?-none, length-map, take-map,
  take-append-drop, length-take-le,
}
use forthdb.StackVm.Instruction.{Cell, none_ref}
use forthdb.StackVm.Record.{WorldRoot, delta_of}
use forthdb.StackVm.Exec.{ok}
use forthdb.StackVm.Arena.Laws.{live, IsWhole, get-eq, active-eq-live, length-live}
use forthdb.StackVm.Log.{Log, Fact, apply, Reads, bottom, entry, replay, head_of}
use forthdb.StackVm.Log.Replay.{IsValidLog-Reads, IsValidLog-take, Reads-append}
use forthdb.StackVm.Workspace.{Workspace, accepted_head, object_of_head, resolve_object, or_head}
use forthdb.StackVm.Workspace.Heads.{find_delta-reverse}
use forthdb.StackVm.Execute.Sound.{IsSound, SlotsBelow}
use forthdb.StackVm.Epoch.{resolve_object_at, object_of_found}

-- The object that a stack of definitions shows.
abbrev pub visible : List Fact → Option Cell
visible [] = none
visible (fact ∷ facts) = some fact.object

object_of_head-Reads :
    (ws : Workspace) (head : ℕ) {facts : List Fact}
    → IsWhole ws.records
    → Reads (live ws.records) head facts
    → object_of_head head ws ≡ ok (visible facts)
unfolding object_of_head
object_of_head-Reads ws head w (bottom e) = rw e
object_of_head-Reads ws head w (entry r e below small rest) =
    ground (arith, get-eq head ws.records (omega (arith, length-live ws.records w)))

-- A search that finds nothing stands for the reference NONE.
object_of_found-eq :
    (ws : Workspace) (found : Option ℕ) (head : ℕ)
    → or_head found (ok none_ref) ≡ ok head
    → object_of_found found ws ≡ object_of_head head ws
unfolding object_of_head
object_of_found-eq ws none head e = let same : none_ref ≡ head = cc in rw (← same)
object_of_found-eq ws (some h) head e = let same : h ≡ head = cc in rw same

-- A slot that does not exist has no definitions.
replay-SlotsBelow : (n slot : ℕ) (log : Log) → SlotsBelow n log → n ≤ slot → replay log slot ≡ []
unfolding replay
replay-SlotsBelow n slot log h fits = untouched log (λ _. []) h
  where
    untouched :
        (log : Log) (stacks : ℕ → List Fact)
        → SlotsBelow n log
        → foldl apply stacks log slot ≡ stacks slot
    untouched [] stacks h = refl
    untouched (r ∷ log) stacks h = untouched log (apply stacks r) h.1 ∙ ground arith

module _ (ws : Workspace) (sound : IsSound ws) where
  count : length (live ws.records) ≤ none_ref
  count = let h = sound.small in omega (arith, length-live ws.records sound.whole.records)

  -- In a sound workspace a slot resolves to the object of the top of its stack of definitions, as
  -- the log's replay gives it, and to nothing where the stack is empty or the slot does not exist.
  pub resolve_object-eq-replay :
      (slot : ℕ) → resolve_object slot ws ≡ ok (visible (replay (live ws.records) slot))
  unfolding resolve_object accepted_head
  resolve_object-eq-replay slot = elim (Option-cases (get_elem? ws.accepted_heads slot)) [
    | inl e ↦ rw (
      e,
      replay-SlotsBelow (length ws.accepted_heads) slot (live ws.records) sound.slots
          (get_elem?-none ws.accepted_heads slot e),
    )
    | inr (head, e) ↦ rw e (
        rw (sound.heads.at slot head e)
          (object_of_head-Reads ws _ sound.whole.records (IsValidLog-Reads count sound.log slot)))
  ]

  -- In a sound workspace, at a root whose slot-delta frontier is not past the records, a slot
  -- resolves to the top of the stack that a replay of the root's prefix of the log gives.
  pub resolve_object_at-eq-replay :
      (root : WorldRoot) (slot : ℕ)
      → root.slot_delta_frontier ≤ ws.records.frontier
      → resolve_object_at root slot ws
        ≡ ok (visible (replay (take root.slot_delta_frontier (live ws.records)) slot))
  unfolding resolve_object_at
  resolve_object_at-eq-replay root slot below =
      let log = live ws.records in
      let n = root.slot_delta_frontier in
      let seen : n ≤ length (live ws.deltas) = omega (
        arith,
        ap length sound.lockstep,
        length-map delta_of log,
        length-live ws.records sound.whole.records,
      ) in
      let valid = IsValidLog-take n sound.log in
      rw
        (
          active-eq-live ws.deltas sound.whole.deltas,
          leb-true n (length (live ws.deltas)) seen,
          sound.lockstep,
          take-map,
        )
        (object_of_found-eq ws _ (head_of (take n log) slot)
            (find_delta-reverse slot none_ref (take n log))
          ∙ object_of_head-Reads ws (head_of (take n log) slot) sound.whole.records (
              rw take-append-drop at (
                Reads-append (drop n log) (
                  IsValidLog-Reads (let c = count in omega (arith, length-take-le n log)) valid
                    slot))))
