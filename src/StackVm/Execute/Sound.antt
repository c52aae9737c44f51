-- ===== src/StackVm/Execute/Sound.antt =====
-- The invariant of a workspace between calls, and what holds during a trial.
pub mod Stack
pub mod Index
pub mod Transition
pub mod Steps
pub mod Accept
pub mod Total
use forthdb.Prelude.{
  u64_max, ℕ, ◌+◌, ◌≤◌, ◌<◌, ◌≡◌, refl, some, List, [], ◌∷◌, ◌++◌, arith, length, get_elem?, map,
  foldl,
}
use forthdb.StackVm.Instruction.{none_ref}
use forthdb.StackVm.Record.{FactRecord, delta_of, hash_record}
use forthdb.StackVm.Arena.Laws.{live, IsWhole}
use forthdb.StackVm.Arena.{PodArena}
use forthdb.StackVm.Log.{Log, head_of, IsValidLog}
use forthdb.StackVm.Workspace.{Workspace, hash_offset}
use forthdb.StackVm.Execute.Trial.{Extends}
use forthdb.StackVm.Execute.Trial.Atomic.{IsWholeWorld}

-- Every record of the log is for a slot below `n`.
abbrev pub SlotsBelow : ℕ → Log → Type 0
SlotsBelow n [] = Unit {0}
SlotsBelow n (r ∷ log) = (r.slot < n) × SlotsBelow n log

pub SlotsBelow-snoc :
    (n : ℕ) (log : Log) (r : FactRecord)
    → SlotsBelow n log
    → r.slot < n
    → SlotsBelow n (log ++ r ∷ [])
SlotsBelow-snoc n [] r h fits = (fits, tt)
SlotsBelow-snoc n (q ∷ log) r h fits = (h.0, SlotsBelow-snoc n log r h.1 fits)

-- The accepted heads are those of the log.
pub record HeadsOf (log : Log) (heads : List ℕ) : Type 0 where
  pub at : (slot head : ℕ) → get_elem? heads slot ≡ some head → head ≡ head_of log slot

-- Between calls the records form a valid log, and all else is determined by it.
pub record IsSound (ws : Workspace) : Type 0 where
  pub whole : IsWholeWorld ws
  pub log : IsValidLog (live ws.records)
  pub lockstep : live ws.deltas ≡ map delta_of (live ws.records)
  pub heads : HeadsOf (live ws.records) ws.accepted_heads
  pub slots : SlotsBelow (length ws.accepted_heads) (live ws.records)
  pub small : ws.records.frontier ≤ none_ref
  pub hash : ws.semantic_hash ≡ foldl hash_record hash_offset (live ws.records)
  pub stack : ws.stack_pointer ≤ length ws.stack
  pub stack_fits : length ws.stack < u64_max

-- A trial from `base`, with room for `n` more records and `m` more index deltas.
pub record InTrial (base : Workspace) (n m : ℕ) (ws : Workspace) : Type 0 where
  pub extends : Extends base ws
  pub log : IsValidLog (live ws.records)
  pub lockstep : live ws.deltas ≡ map delta_of (live ws.records)
  pub slots : SlotsBelow (length base.accepted_heads) (live ws.records)
  pub room : ws.records.frontier + n ≤ none_ref
  pub index_room : ws.index_deltas.frontier + m ≤ none_ref
  pub stack : ws.stack_pointer ≤ length ws.stack
