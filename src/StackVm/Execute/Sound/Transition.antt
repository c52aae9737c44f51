-- ===== src/StackVm/Execute/Sound/Transition.antt =====
-- A define or a forget in a trial appends the next record of the log.
use native.Mathlib.Nat.{mod-eq_of_lt}
use forthdb.Prelude.{
  ℕ, suc, ◌+◌, ◌≤◌, ◌<◌, ◌≡◌, refl, ◌⊎◌, inl, inr, arith, length, length-map, map, ap, some, none,
  ◌∙◌, sym, get_elem?, get_elem?-bound, get_elem?-ne_none, take, take-take, drop, Option-cases, ◌^◌,
}
use mathlib.Core.List.{map-append}
use forthdb.StackVm.Instruction.{none_ref}
use forthdb.StackVm.Record.{FactRecord, delta_of}
use forthdb.StackVm.Exec.{invalid_slot, ok, err, ◌>>=◌}
use forthdb.StackVm.Exec.Meets.{Meets, Returns, Returns-mono}
use forthdb.StackVm.Arena.Laws.{
  live, IsWhole, pushed, push-eq-pushed, frontier-pushed, live-pushed, length-live, get-eq,
}
use forthdb.StackVm.Log.{head_from, IsNext, next, head_of, revealed}
use forthdb.StackVm.Log.Replay.{head_of-bound, revealed-bound}
use forthdb.StackVm.Workspace.{Workspace, resolve_trial_head}
use forthdb.StackVm.Workspace.Heads.{
  resolve_trial_head-eq, resolve_trial_head-invalid, head_of-split,
}
use forthdb.StackVm.Execute.{
  append_record, append_delta, append_transition, append_index_transition, define, forget,
  define_record, forget_record, revealed_by,
}
use forthdb.StackVm.Execute.Trial.{Extends, Grows-pushed}
use forthdb.StackVm.Execute.Sound.{IsSound, InTrial, SlotsBelow-snoc}
use forthdb.StackVm.Execute.Sound.Index.{IsRef, Indexing, append_index_transition-Indexing}

-- Records and deltas are pushed in pairs.
pub frontiers-eq :
    (ws : Workspace)
    → IsWhole ws.deltas
    → IsWhole ws.records
    → live ws.deltas ≡ map delta_of (live ws.records)
    → ws.deltas.frontier ≡ ws.records.frontier
frontiers-eq ws wd wr lockstep =
    sym (length-live ws.deltas wd)
    ∙ ap length lockstep
    ∙ length-map delta_of (live ws.records)
    ∙ length-live ws.records wr

IsRef-up : {f g r : ℕ} → f ≤ g → IsRef f r → IsRef g r
IsRef-up h (inl e) = inl e
IsRef-up h (inr below) = inr (omega arith)

module _ (base : Workspace) (n m : ℕ) (ws : Workspace) (t : InTrial base (suc n) (m + 6) ws)
    (r : FactRecord) (step : IsNext (live ws.records) r)
    (fits : r.slot < length base.accepted_heads) where
  -- The workspace once the record and the delta are pushed.
  recorded : Workspace
  recorded = record ws { records = pushed r ws.records; deltas = pushed (delta_of r) ws.deltas }

  lockstep_frontier : ws.deltas.frontier ≡ ws.records.frontier
  lockstep_frontier = frontiers-eq ws t.extends.deltas.whole t.extends.records.whole t.lockstep

  recorded-InTrial : InTrial base n (m + 6) recorded
  unfolding recorded
  recorded-InTrial = record {
    extends = record {
      records = Grows-pushed r t.extends.records;
      deltas = Grows-pushed (delta_of r) t.extends.deltas;
      index_deltas = t.extends.index_deltas;
      roots = t.extends.roots;
      heads = t.extends.heads;
      last_root = t.extends.last_root;
      version = t.extends.version;
      hash = t.extends.hash;
      tracks = t.extends.tracks;
      offset = t.extends.offset;
      stack_size = t.extends.stack_size;
    };
    log =
        rw (live-pushed r ws.records t.extends.records.whole)
          (next (live ws.records) r t.log step refl);
    lockstep = rw (
      live-pushed r ws.records t.extends.records.whole,
      live-pushed (delta_of r) ws.deltas t.extends.deltas.whole,
      t.lockstep,
      map-append,
    );
    slots =
        rw (live-pushed r ws.records t.extends.records.whole)
          (SlotsBelow-snoc (length base.accepted_heads) (live ws.records) r t.slots fits);
    room = rw frontier-pushed (let h = t.room in omega arith);
    index_room = t.index_room;
    stack = t.stack;
  }

  append_transition-eq :
      append_transition r ws
      ≡ append_index_transition r.previous_visible r.resulting_visible recorded
  unfolding append_transition append_record append_delta recorded ◌>>=◌
  append_transition-eq = rw (
    push-eq-pushed r ws.records t.extends.records.whole (let h = t.room in omega arith),
    push-eq-pushed (delta_of r) ws.deltas t.extends.deltas.whole
        (let h = t.room in omega (arith, lockstep_frontier)),
  )

  pub append_transition-InTrial :
      IsRef (ws.records.frontier + 1) r.previous_visible
      → IsRef (ws.records.frontier + 1) r.resulting_visible
      → Returns (λ _. InTrial base n m) (append_transition r ws).0 (append_transition r ws).1
  append_transition-InTrial previous resulting = rw append_transition-eq (
      Returns-mono {Q = λ _. Indexing base n m (ws.records.frontier + 1)} _ _ (λ _ s i. i.trial)
        ((append_index_transition-Indexing base n (ws.records.frontier + 1) m _ _ previous
            resulting).at
          recorded
          (record {
            trial = recorded-InTrial;
            count = unfold recorded in frontier-pushed r ws.records;
          })))

module _ (base : Workspace) (sound : IsSound base) where
  -- In a trial from a sound workspace a slot that exists has the head that the trial's log determines.
  pub resolve_trial_head-InTrial :
      {n m : ℕ} (ws : Workspace) (slot head : ℕ)
      → InTrial base n m ws
      → get_elem? base.accepted_heads slot ≡ some head
      → resolve_trial_head slot base.deltas.frontier ws ≡ ok (head_of (live ws.records) slot)
  resolve_trial_head-InTrial ws slot head t e =
      let frontier = base.deltas.frontier in
      let log = live ws.records in
      let d : frontier ≡ base.records.frontier =
        frontiers-eq base sound.whole.deltas sound.whole.records sound.lockstep in
      let prefix : live base.records ≡ take frontier log = rw d (
        sym (
          take-take base.records.frontier ws.records.frontier ws.records.cells
            t.extends.records.above
          ∙ t.extends.records.kept)) in
      let known : head ≡ head_of (take frontier log) slot =
        sound.heads.at slot head e ∙ ap (λ l. head_of l slot) prefix in
      resolve_trial_head-eq ws frontier slot head t.extends.deltas.whole t.extends.deltas.above
        t.lockstep (ap (λ heads. get_elem? heads slot) t.extends.heads ∙ e)
      ∙ ap ok
          (ap (λ h. head_from h (drop frontier log) slot) known ∙ head_of-split frontier log slot)

  pub resolve_trial_head-none :
      (ws : Workspace) (slot : ℕ)
      → Extends base ws
      → get_elem? base.accepted_heads slot ≡ none
      → resolve_trial_head slot base.deltas.frontier ws ≡ err invalid_slot
  resolve_trial_head-none ws slot x e =
      resolve_trial_head-invalid ws base.deltas.frontier slot
        (ap (λ heads. get_elem? heads slot) x.heads ∙ e)

  module _ (n m : ℕ) (ws : Workspace) (t : InTrial base (suc n) (m + 6) ws) where
    count : length (live ws.records) ≡ ws.records.frontier
    count = length-live ws.records t.extends.records.whole

    head-IsRef : (slot : ℕ) → IsRef (ws.records.frontier + 1) (head_of (live ws.records) slot)
    head-IsRef slot =
        IsRef-up {f = length (live ws.records)} (omega (arith, count))
          (head_of-bound (live ws.records) (let h = t.room in omega (arith, count)) t.log slot)

    revealed-IsRef :
        (slot : ℕ)
        → IsRef
            (ws.records.frontier + 1)
            (revealed (live ws.records) (head_of (live ws.records) slot))
    revealed-IsRef slot =
        IsRef-up {f = length (live ws.records)} (omega (arith, count))
          (revealed-bound (live ws.records) (let h = t.room in omega (arith, count)) t.log slot)

  define_known :
      (n m : ℕ) (ws : Workspace) (slot subject predicate object head : ℕ)
      → InTrial base (suc n) (m + 6) ws
      → get_elem? base.accepted_heads slot ≡ some head
      → Returns
          (λ _. InTrial base n m)
          (define slot subject predicate object base.deltas.frontier ws).0
          (define slot subject predicate object base.deltas.frontier ws).1
  unfolding define define_record ◌>>=◌
  define_known n m ws slot subject predicate object head t e =
      rw
        (
          resolve_trial_head-InTrial ws slot head t e,
          mod-eq_of_lt {n = ws.records.frontier} {m = 2 ^ 32} (let h = t.room in omega arith),
        )
        (append_transition-InTrial base n m ws t _
          (record { previous = refl; resulting = sym (count n m ws t) })
          (get_elem?-bound base.accepted_heads slot e) (head-IsRef n m ws t slot)
          (inr (omega arith)))

  revealed_by-eq :
      (n m : ℕ) (ws : Workspace) (slot : ℕ)
      → InTrial base (suc n) (m + 6) ws
      → revealed_by (head_of (live ws.records) slot) ws
        ≡ ok (revealed (live ws.records) (head_of (live ws.records) slot))
  unfolding revealed_by
  revealed_by-eq n m ws slot t =
      revealed_at (head_of (live ws.records) slot) (
        head_of-bound (live ws.records) (let h = t.room in omega (arith, count n m ws t)) t.log
          slot)
    where
      revealed_at :
          (head : ℕ)
          → (head ≡ none_ref) ⊎ (head < length (live ws.records))
          → revealed_by head ws ≡ ok (revealed (live ws.records) head)
      revealed_at head (inl e) = rw e
      revealed_at head (inr below) = ground (
        arith,
        get-eq head ws.records (omega (arith, count n m ws t)),
        get_elem?-ne_none (live ws.records) head below,
      )

  forget_known :
      (n m : ℕ) (ws : Workspace) (slot head : ℕ)
      → InTrial base (suc n) (m + 6) ws
      → get_elem? base.accepted_heads slot ≡ some head
      → Returns
          (λ _. InTrial base n m)
          (forget slot base.deltas.frontier ws).0
          (forget slot base.deltas.frontier ws).1
  unfolding forget forget_record ◌>>=◌
  forget_known n m ws slot head t e =
      rw (resolve_trial_head-InTrial ws slot head t e, revealed_by-eq n m ws slot t)
        (append_transition-InTrial base n m ws t _ (record { previous = refl; resulting = refl })
          (get_elem?-bound base.accepted_heads slot e) (head-IsRef n m ws t slot)
          (revealed-IsRef n m ws t slot))

  -- Any define keeps the log valid, or is refused for a slot that does not exist.
  pub define-InTrial :
      (n m slot subject predicate object : ℕ)
      → Meets
          (InTrial base (suc n) (m + 6))
          (λ _. InTrial base n m)
          (define slot subject predicate object base.deltas.frontier)
  define-InTrial n m slot subject predicate object = record {
    at = λ ws t. elim (Option-cases (get_elem? base.accepted_heads slot)) [
      | inl e ↦ unfold define ◌>>=◌ in rw (resolve_trial_head-none ws slot t.extends e) tt
      | inr (head, e) ↦ define_known n m ws slot subject predicate object head t e
    ];
  }

  pub forget-InTrial :
      (n m slot : ℕ)
      → Meets
          (InTrial base (suc n) (m + 6))
          (λ _. InTrial base n m)
          (forget slot base.deltas.frontier)
  forget-InTrial n m slot = record {
    at = λ ws t. elim (Option-cases (get_elem? base.accepted_heads slot)) [
      | inl e ↦ unfold forget ◌>>=◌ in rw (resolve_trial_head-none ws slot t.extends e) tt
      | inr (head, e) ↦ forget_known n m ws slot head t e
    ];
  }
