-- ===== src/Kernel/Store.antt =====
-- forthdb-core/src/lib.rs: `DefinitionStore`. `none` is a panic of the call: an index out of bounds.
pub mod Stacks
pub mod History
pub mod Active
use forthdb.Prelude.{ℕ, zero, suc, ◌+◌, Option, none, some, List, [], ◌∷◌, ◌++◌, length, get_elem?}
use forthdb.Prelude.Map.{Map, get, insert, remove, values}
use forthdb.Prelude.IdSet.{IdSet, collect}
use mathlib.Core.Option
use forthdb.Prelude.Equality.{Equality, nat_equality, list_equality}
use forthdb.Kernel.Value.{RecordId, SlotId, Fact}

pub data RecordKind : Type 0 where
  define forget : RecordKind

pub record Record : Type 0 where
  pub id : RecordId
  pub kind : RecordKind
  pub slot : SlotId
  pub fact : Option Fact
  pub previous_head : Option RecordId
  pub resulting_head : Option RecordId

pub record DefinitionStore : Type 0 where
  pub log : List Record
  pub head : Map SlotId RecordId
  pub slot_history : Map SlotId (List RecordId)

abbrev pub empty_store : DefinitionStore
empty_store = record { log = []; head = []; slot_history = [] }

abbrev pub find_record : RecordId → DefinitionStore → Option Record
find_record id store = get_elem? store.log id

-- The record's fact; a missing record and a record without a fact panic.
abbrev pub fact_in : Option Record → Option Fact
fact_in none = none
fact_in (some r) = r.fact

abbrev pub fact_at : RecordId → DefinitionStore → Option Fact
fact_at id store = fact_in (find_record id store)

abbrev or_empty : Option (List RecordId) → List RecordId
or_empty none = []
or_empty (some ids) = ids

-- `slot_history.entry(slot).or_default().push(record_id)`
unfoldable pub push_history :
    SlotId → RecordId → Map SlotId (List RecordId) → Map SlotId (List RecordId)
push_history slot id histories = insert slot (or_empty (get slot histories) ++ id ∷ []) histories

unfoldable pub define_record : RecordId → SlotId → Fact → Option RecordId → Record
define_record id slot fact previous = record {
  id = id;
  kind = RecordKind.define;
  slot = slot;
  fact = some fact;
  previous_head = previous;
  resulting_head = some id;
}

unfoldable pub append_define :
    SlotId → Fact → DefinitionStore → (RecordId × Option RecordId) × DefinitionStore
append_define slot fact store =
    let previous = get slot store.head in
    let id = length store.log in
    (
      (id, previous),
      record {
        log = store.log ++ define_record id slot fact previous ∷ [];
        head = insert slot id store.head;
        slot_history = push_history slot id store.slot_history;
      },
    )

unfoldable pub forget_record : RecordId → SlotId → Option RecordId → Option RecordId → Record
forget_record id slot current revealed = record {
  id = id;
  kind = RecordKind.forget;
  slot = slot;
  fact = none;
  previous_head = current;
  resulting_head = revealed;
}

-- `current.and_then(|record_id| self.record(record_id).previous_head)`
unfoldable pub revealed_by : Option RecordId → DefinitionStore → Option (Option RecordId)
revealed_by none store = some none
revealed_by (some id) store = Option.map (λ r. r.previous_head) (find_record id store)

unfoldable pub set_head : SlotId → Option RecordId → Map SlotId RecordId → Map SlotId RecordId
set_head slot none head = remove slot head
set_head slot (some id) head = insert slot id head

abbrev pub forget_to :
    SlotId
    → Option RecordId
    → DefinitionStore
    → (RecordId × (Option RecordId × Option RecordId)) × DefinitionStore
forget_to slot revealed store =
    let current = get slot store.head in
    let id = length store.log in
    (
      (id, (current, revealed)),
      record {
        log = store.log ++ forget_record id slot current revealed ∷ [];
        head = set_head slot revealed store.head;
        slot_history = push_history slot id store.slot_history;
      },
    )

unfoldable pub append_forget :
    SlotId
    → DefinitionStore
    → Option ((RecordId × (Option RecordId × Option RecordId)) × DefinitionStore)
append_forget slot store =
    Option.map (λ revealed. forget_to slot revealed store) (revealed_by (get slot store.head) store)

-- The outer option is the panic.
abbrev pub find_head : Option RecordId → DefinitionStore → Option (Option Record)
find_head none store = some none
find_head (some id) store = Option.map some (find_record id store)

unfoldable pub resolve_record : SlotId → DefinitionStore → Option (Option Record)
resolve_record slot store = find_head (get slot store.head) store

abbrev pub consed : Option Record → Option (List Record) → Option (List Record)
consed (some r) (some rest) = some (r ∷ rest)
consed _ _ = none

abbrev pub previous_of : Option Record → Option RecordId
previous_of none = none
previous_of (some r) = r.previous_head

-- The loop of `definitions`, on fuel: a record's previous head is older than it, so that a walk is
-- no longer than the log. Without fuel the walk counts as a panic.
unfoldable pub definitions_from : ℕ → Option RecordId → DefinitionStore → Option (List Record)
definitions_from zero id store = none
definitions_from (suc fuel) none store = some []
definitions_from (suc fuel) (some id) store =
    consed (find_record id store) (definitions_from fuel (previous_of (find_record id store)) store)

unfoldable pub definitions : SlotId → DefinitionStore → Option (List Record)
definitions slot store = definitions_from (suc (length store.log)) (get slot store.head) store

unfoldable pub find_records : List RecordId → List Record → Option (List Record)
find_records [] log = some []
find_records (id ∷ ids) log = consed (get_elem? log id) (find_records ids log)

unfoldable pub history : SlotId → DefinitionStore → Option (List Record)
history slot store = find_records (or_empty (get slot store.slot_history)) store.log

unfoldable pub active_slot_count : DefinitionStore → ℕ
active_slot_count store = length store.head

unfoldable pub record_count : DefinitionStore → ℕ
record_count store = length store.log

unfoldable pub active_record_ids : DefinitionStore → IdSet
active_record_ids store = collect (values store.head)
