-- ===== src/StackVm/Execute/Sound/Index.antt =====
-- The index deltas of a transition, in a trial.
use forthdb.Prelude.{
  ℕ, suc, ◌+◌, ◌<◌, ◌≡◌, ◌⊎◌, inl, inr, Bool, not, true, false, arith, Bool-cases, ◌==◌,
}
use forthdb.StackVm.Instruction.{none_ref}
use forthdb.StackVm.Record.{FactRecord, IndexDelta}
use forthdb.StackVm.Exec.{ok, or_panic}
use forthdb.StackVm.Exec.Meets.{Meets, Returns, Meets-bind, Returns-if, Meets-pure, Meets-reading}
use forthdb.StackVm.Arena
use forthdb.StackVm.Arena.Laws.{push-eq-pushed, get-ne_none, frontier-pushed}
use forthdb.StackVm.Workspace.{Workspace}
use forthdb.StackVm.Execute.{
  append_index, append_fact_indexes, append_index_side, both_sides, append_index_transition,
}
use forthdb.StackVm.Execute.Trial.{append_index-Extends}
use forthdb.StackVm.Execute.Sound.{InTrial}

-- A reference that may be followed in an arena of `f` records.
abbrev pub IsRef : ℕ → ℕ → Type 0
IsRef f reference = (reference ≡ none_ref) ⊎ (reference < f)

-- In a trial with `f` records.
pub record Indexing (base : Workspace) (n m f : ℕ) (ws : Workspace) : Type 0 where
  pub trial : InTrial base n m ws
  pub count : ws.records.frontier ≡ f

module _ (base : Workspace) (n f : ℕ) where
  append_index-Indexing :
      (m : ℕ) (d : IndexDelta)
      → Meets (Indexing base n (suc m) f) (λ _. Indexing base n m f) (append_index d)
  unfolding append_index
  append_index-Indexing m d = record {
    at = λ ws i.
        let e =
          push-eq-pushed d ws.index_deltas i.trial.extends.index_deltas.whole
            (let r = i.trial.index_room in omega arith) in
        let extends' = (append_index-Extends base d).at ws i.trial.extends in
        rw e (record {
          trial = record {
            extends = rw e at extends';
            log = i.trial.log;
            lockstep = i.trial.lockstep;
            slots = i.trial.slots;
            room = i.trial.room;
            index_room = let r = i.trial.index_room in rw frontier-pushed (omega arith);
            stack = i.trial.stack;
          };
          count = i.count;
        });
  }

  append_fact_indexes-Indexing :
      (m : ℕ) (fact : FactRecord) (index : ℕ) (added : Bool)
      → Meets
          (Indexing base n (suc (suc (suc m))) f)
          (λ _. Indexing base n m f)
          (append_fact_indexes fact index added)
  unfolding append_fact_indexes
  append_fact_indexes-Indexing m fact index added =
      Meets-bind _ _ (append_index-Indexing (suc (suc m)) _)
        (λ _. Meets-bind _ _ (append_index-Indexing (suc m) _) (λ _. append_index-Indexing m _))

  Indexing-weaken :
      (m : ℕ) (ws : Workspace) → Indexing base n (suc (suc (suc m))) f ws → Indexing base n m f ws
  Indexing-weaken m ws i = ground arith

  fetch :
      {m : ℕ} {reference : ℕ} (ws : Workspace)
      → Indexing base n m f ws
      → reference < f
      → Returns (λ _. Indexing base n m f) (or_panic (Arena.get reference ws.records)) ws
  fetch {m} {reference} ws i below = ground (arith, get-ne_none reference ws.records)

  append_index_side-Indexing :
      (m reference : ℕ) (added : Bool)
      → IsRef f reference
      → Meets
          (Indexing base n (suc (suc (suc m))) f)
          (λ _. Indexing base n m f)
          (append_index_side reference added)
  unfolding append_index_side
  append_index_side-Indexing m reference added ref = elim (Bool-cases (reference == none_ref)) [
    | inl none ↦ rw none (Meets-pure tt (Indexing-weaken m))
    | inr some ↦ rw some (
        Meets-bind _ _
          (Meets-reading {Q = λ _. Indexing base n (suc (suc (suc m))) f} _
            (λ ws i. fetch ws i (ground arith)))
          (λ fact. append_fact_indexes-Indexing m fact reference added))
  ]

  both_sides-Indexing :
      (m previous resulting : ℕ)
      → IsRef f previous
      → IsRef f resulting
      → Meets
          (Indexing base n (suc (suc (suc (suc (suc (suc m)))))) f)
          (λ _. Indexing base n m f)
          (both_sides previous resulting)
  unfolding both_sides
  both_sides-Indexing m previous resulting p r =
      Meets-bind _ _ (append_index_side-Indexing (suc (suc (suc m))) previous false p)
        (λ _. append_index_side-Indexing m resulting true r)

  pub append_index_transition-Indexing :
      (m previous resulting : ℕ)
      → IsRef f previous
      → IsRef f resulting
      → Meets
          (Indexing base n (m + 6) f)
          (λ _. Indexing base n m f)
          (append_index_transition previous resulting)
  unfolding append_index_transition
  append_index_transition-Indexing m previous resulting p r = record {
    at = λ ws i.
        Returns-if (λ _. Indexing base n m f) (not ws.track_indexes) (ok tt, ws)
          (both_sides previous resulting ws) (ground arith)
          ((both_sides-Indexing m previous resulting p r).at ws (ground arith));
  }
