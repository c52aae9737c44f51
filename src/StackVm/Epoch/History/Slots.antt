-- ===== src/StackVm/Epoch/History/Slots.antt =====
-- New slots have no definitions.
use forthdb.Prelude.{
  ℕ, ◌-◌, ◌≤◌, ◌≡◌, refl, sym, ◌∙◌, arith, length, [], ◌∷◌, List, replicate, length-append,
  get_elem?-append-cases, inl, inr, ltb, Bool, true, false, if◌then◌else◌,
}
use forthdb.StackVm.Instruction.{none_ref}
use forthdb.StackVm.Log.{Log, head_from, later}
use forthdb.StackVm.Workspace.{Workspace, ensure_slot_count, resize}
use forthdb.StackVm.Execute.Sound.{IsSound, SlotsBelow, HeadsOf}
use forthdb.StackVm.Execute.Sound.Total.{get_elem?-replicate}

head_from-SlotsBelow :
    (n slot head : ℕ) (log : Log) → SlotsBelow n log → n ≤ slot → head_from head log slot ≡ head
unfolding head_from
head_from-SlotsBelow n slot head [] h fits = refl
head_from-SlotsBelow n slot head (r ∷ log) h fits =
    head_from-SlotsBelow n slot (later slot head r) log h.1 fits ∙ ground arith

SlotsBelow-mono : (n m : ℕ) (log : Log) → n ≤ m → SlotsBelow n log → SlotsBelow m log
SlotsBelow-mono n m [] h s = tt
SlotsBelow-mono n m (r ∷ log) h s = (omega arith, SlotsBelow-mono n m log h s.1)

HeadsOf-resize :
    (log : Log) (heads : List ℕ) (n : ℕ)
    → HeadsOf log heads
    → SlotsBelow (length heads) log
    → HeadsOf log (resize heads n)
HeadsOf-resize log heads n h s = record {
  at = λ slot head e.
      elim (get_elem?-append-cases heads (replicate (n - length heads) none_ref) slot e) [
        | inl old ↦ h.at slot head old
        | inr (above, new) ↦
            get_elem?-replicate (n - length heads) none_ref (slot - length heads) new
            ∙ sym (head_from-SlotsBelow (length heads) slot none_ref log s above)
      ];
}

resized-IsSound :
    (ws : Workspace) (n : ℕ)
    → IsSound ws
    → IsSound (record ws { accepted_heads = resize ws.accepted_heads n })
resized-IsSound ws n s = record {
  whole = record {
    records = s.whole.records;
    deltas = s.whole.deltas;
    index_deltas = s.whole.index_deltas;
  };
  log = s.log;
  lockstep = s.lockstep;
  heads = HeadsOf-resize _ ws.accepted_heads n s.heads s.slots;
  slots =
      SlotsBelow-mono (length ws.accepted_heads) _ _
        (omega (
          arith,
          length-append ws.accepted_heads (replicate (n - length ws.accepted_heads) none_ref),
        ))
        s.slots;
  small = s.small;
  hash = s.hash;
  stack = s.stack;
  stack_fits = s.stack_fits;
}

pub ensure_slot_count-IsSound :
    (ws : Workspace) (n : ℕ) → IsSound ws → IsSound (ensure_slot_count n ws)
unfolding ensure_slot_count
ensure_slot_count-IsSound ws n s = choose (ltb (length ws.accepted_heads) n)
  where
    choose :
        (b : Bool)
        → IsSound (if b then record ws { accepted_heads = resize ws.accepted_heads n } else ws)
    choose true = resized-IsSound ws n s
    choose false = s

pub records-ensure_slot_count :
    (ws : Workspace) (n : ℕ) → (ensure_slot_count n ws).records ≡ ws.records
unfolding ensure_slot_count
records-ensure_slot_count ws n = ground arith
