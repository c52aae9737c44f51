-- ===== src/StackVm/Log.antt =====
-- The specification of the machine's store: a world is the log of its records. Each slot has a
-- stack of definitions; a define pushes a fact on it and a forget pops one.
pub mod Replay
use mathlib.Core.List.{tail}
use forthdb.Prelude.{
  ℕ, ◌≡◌, ◌<◌, ◌≤◌, Option, none, some, List, [], ◌∷◌, ◌++◌, foldl, length, get_elem?, ◌==◌,
  if◌then◌else◌,
}
use forthdb.StackVm.Instruction.{Cell, SlotToken, none_ref}
use forthdb.StackVm.Record.{FactRecord, RecordKind}

abbrev pub Log : Type 0
Log = List FactRecord

pub record Fact : Type 0 where
  pub subject : Cell
  pub predicate : Cell
  pub object : Cell

abbrev pub fact_of : FactRecord → Fact
fact_of r = record { subject = r.subject; predicate = r.predicate; object = r.object }

-- The definitions of each slot, the visible one first.
abbrev pub Stacks : Type 0
Stacks = SlotToken → List Fact

abbrev pub on_kind : RecordKind → Fact → List Fact → List Fact
on_kind RecordKind.define fact facts = fact ∷ facts
on_kind RecordKind.forget fact facts = tail facts

abbrev pub apply : Stacks → FactRecord → Stacks
apply stacks r slot =
    if r.slot == slot then on_kind r.kind (fact_of r) (stacks slot) else stacks slot

unfoldable pub replay : Log → Stacks
replay = foldl apply (λ _. [])

-- The reference to a slot's visible definition: that of the slot's last record.
abbrev pub later : SlotToken → ℕ → FactRecord → ℕ
later slot head r = if r.slot == slot then r.resulting_visible else head

unfoldable pub head_from : ℕ → Log → SlotToken → ℕ
head_from head log slot = foldl (later slot) head log

abbrev pub head_of : Log → SlotToken → ℕ
head_of log slot = head_from none_ref log slot

abbrev pub revealed : Log → ℕ → ℕ
revealed log head =
    if head == none_ref
    then none_ref
    else elim (get_elem? log head) [ none ↦ none_ref | some r ↦ r.previous_visible ]

abbrev pub result_of : Log → RecordKind → ℕ → ℕ
result_of log RecordKind.define head = length log
result_of log RecordKind.forget head = revealed log head

-- `r` may follow `log`: its references are what the log determines.
pub record IsNext (log : Log) (r : FactRecord) : Type 0 where
  pub previous : r.previous_visible ≡ head_of log r.slot
  pub resulting : r.resulting_visible ≡ result_of log r.kind (head_of log r.slot)

pub data IsValidLog : Log → Type 0 where
  start : {log : Log} → log ≡ [] → IsValidLog log
  next :
      {log : Log} (before : Log) (r : FactRecord)
      → IsValidLog before
      → IsNext before r
      → log ≡ before ++ r ∷ []
      → IsValidLog log

-- Following `previous_visible` from `head` reads off the definitions `facts`.
pub data Reads (log : Log) : ℕ → List Fact → Type 0 where
  bottom : {head : ℕ} → head ≡ none_ref → Reads log head []
  entry :
      {head : ℕ} (r : FactRecord) {facts : List Fact}
      → get_elem? log head ≡ some r
      → head < length log
      → head < none_ref
      → Reads log r.previous_visible facts
      → Reads log head (fact_of r ∷ facts)
