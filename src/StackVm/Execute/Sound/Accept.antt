-- ===== src/StackVm/Execute/Sound/Accept.antt =====
-- Accepting a trial moves the heads and the hash to the trial's log.
use mathlib.Core.List.{foldl-append, append_assoc, append-nil}
use forthdb.Prelude.{
  ℕ, zero, suc, ◌≤◌, ◌<◌, ◌≡◌, refl, sym, ap, ◌∙◌, some, List, [], ◌∷◌, ◌++◌, arith, length,
  length-set, get_elem?, set, get_elem?-set, if◌then◌else◌, take, drop, map, foldl,
  take-append-drop, take-take, ltb-true, inl, inr, Bool-cases, ◌==◌,
}
use forthdb.StackVm.Record.{FactRecord, delta_of, hash_record}
use forthdb.StackVm.Exec.{ok}
use forthdb.StackVm.Arena.Laws.{live}
use forthdb.StackVm.Log.{Log, head_of, later}
use forthdb.StackVm.Log.Replay.{head_from-snoc}
use forthdb.StackVm.Workspace.{Workspace, hash_offset}
use forthdb.StackVm.Workspace.Heads.{trial_slice-eq, drop-map}
use forthdb.StackVm.Execute.{accept, accept_heads, checkpoint}
use forthdb.StackVm.Execute.Sound.{IsSound, InTrial, HeadsOf, SlotsBelow}
use forthdb.StackVm.Execute.Sound.Transition.{frontiers-eq}

-- One more record sets the head of its slot.
HeadsOf-set :
    (log : Log) (heads : List ℕ) (r : FactRecord)
    → HeadsOf log heads
    → r.slot < length heads
    → HeadsOf (log ++ r ∷ []) (set heads r.slot r.resulting_visible)
HeadsOf-set log heads r h fits = record {
  at = λ slot head e.
      rw head_from-snoc
        (set-head slot head (sym (get_elem?-set heads r.slot slot r.resulting_visible fits) ∙ e));
}
  where
    set-head :
        (slot head : ℕ)
        → (if r.slot == slot then some r.resulting_visible else get_elem? heads slot) ≡ some head
        → head ≡ later slot (head_of log slot) r
    set-head slot head e = elim (Bool-cases (r.slot == slot)) [
      | inl own ↦ ground arith
      | inr other ↦ rw other (h.at slot head (rw other at e))
    ]

-- The loop over the deltas of a trial takes the heads of the log to those of the longer log.
accept_heads-HeadsOf :
    (log more : Log) (heads : List ℕ)
    → HeadsOf log heads
    → SlotsBelow (length heads) more
    → (heads' : List ℕ) × (accept_heads (map delta_of more) heads ≡ some heads')
      × HeadsOf (log ++ more) heads'
      × (length heads' ≡ length heads)
unfolding accept_heads
accept_heads-HeadsOf log [] heads h fits = (heads, refl, rw append-nil h, refl)
accept_heads-HeadsOf log (r ∷ more) heads h fits =
    let heads₁ = set heads r.slot r.resulting_visible in
    let same : length heads₁ ≡ length heads = length-set heads r.slot r.resulting_visible in
    let (heads', e, h', n) =
      accept_heads-HeadsOf (log ++ r ∷ []) more heads₁ (HeadsOf-set log heads r h fits.0)
        (rw same fits.1) in
    (heads', rw (ltb-true r.slot (length heads) fits.0) e, rw append_assoc at h', n ∙ same)

SlotsBelow-drop : (n k : ℕ) (log : Log) → SlotsBelow n log → SlotsBelow n (drop k log)
SlotsBelow-drop n zero log h = h
SlotsBelow-drop n (suc k) [] h = h
SlotsBelow-drop n (suc k) (r ∷ log) h = SlotsBelow-drop n k log h.1

-- `later` has the log of `earlier` as a prefix, its slots and its stack.
pub record Continues (earlier later_ws : Workspace) : Type 0 where
  pub prefix : take earlier.records.frontier (live later_ws.records) ≡ live earlier.records
  pub above : earlier.records.frontier ≤ later_ws.records.frontier
  pub slots : length later_ws.accepted_heads ≡ length earlier.accepted_heads
  pub stack_pointer : later_ws.stack_pointer ≡ earlier.stack_pointer
  pub frame_base : later_ws.frame_base ≡ earlier.frame_base

module _ (base : Workspace) (sound : IsSound base) (ws : Workspace) (t : InTrial base 0 0 ws) where
  kept : take base.records.frontier (live ws.records) ≡ live base.records
  kept =
      take-take base.records.frontier ws.records.frontier ws.records.cells t.extends.records.above
      ∙ t.extends.records.kept

  split : live base.records ++ drop base.records.frontier (live ws.records) ≡ live ws.records
  split =
      ap (λ l. l ++ drop base.records.frontier (live ws.records)) (sym kept)
      ∙ take-append-drop base.records.frontier (live ws.records)

  accepted_with : List ℕ → Workspace
  accepted_with heads = record ws {
    accepted_heads = heads;
    semantic_hash =
        foldl hash_record ws.semantic_hash (drop base.records.frontier (live ws.records));
    stack_pointer = base.stack_pointer;
    frame_base = base.frame_base;
  }

  accept-eq :
      (heads : List ℕ)
      → accept_heads
          (map delta_of (drop base.records.frontier (live ws.records)))
          base.accepted_heads
        ≡ some heads
      → accept (checkpoint base) ws ≡ ok (accepted_with heads)
  unfolding accept checkpoint accepted_with
  accept-eq heads e =
      let d = frontiers-eq base sound.whole.deltas sound.whole.records sound.lockstep in
      rw (
        trial_slice-eq ws base.deltas.frontier ws.deltas t.extends.deltas.whole
            t.extends.deltas.above,
        trial_slice-eq ws base.records.frontier ws.records t.extends.records.whole
            t.extends.records.above,
        t.lockstep,
        d,
        drop-map,
        t.extends.heads,
        e,
      )

  accepted-IsSound :
      (heads : List ℕ)
      → HeadsOf (live ws.records) heads
      → length heads ≡ length base.accepted_heads
      → IsSound (accepted_with heads)
  unfolding accepted_with
  accepted-IsSound heads h n =
      let new = drop base.records.frontier (live ws.records) in
      record {
        whole = record {
          records = t.extends.records.whole;
          deltas = t.extends.deltas.whole;
          index_deltas = t.extends.index_deltas.whole;
        };
        log = t.log;
        lockstep = t.lockstep;
        heads = h;
        slots = rw n t.slots;
        small = let r = t.room in omega arith;
        hash =
            ap (λ h. foldl hash_record h new) (t.extends.hash ∙ sound.hash)
            ∙ sym (foldl-append hash_record hash_offset (live base.records) new)
            ∙ ap (foldl hash_record hash_offset) split;
        stack = let s = sound.stack in let e = t.extends.stack_size in omega arith;
        stack_fits = let s = sound.stack_fits in let e = t.extends.stack_size in omega arith;
      }

  -- A trial that has run to its end is accepted: the call does not panic, and the invariant holds.
  pub accept-IsSound :
      (ws' : Workspace) × (accept (checkpoint base) ws ≡ ok ws') × IsSound ws' × Continues base ws'
  accept-IsSound =
      let (heads, e, h, n) =
        accept_heads-HeadsOf (live base.records) (drop base.records.frontier (live ws.records))
          base.accepted_heads sound.heads
          (SlotsBelow-drop (length base.accepted_heads) base.records.frontier (live ws.records)
            t.slots) in
      (
        accepted_with heads,
        accept-eq heads e,
        accepted-IsSound heads (rw split at h) n,
        unfold accepted_with in
            record {
              prefix = kept;
              above = t.extends.records.above;
              slots = n;
              stack_pointer = refl;
              frame_base = refl;
            },
      )
