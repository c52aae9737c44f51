-- ===== src/StackVm/Snapshot.antt =====
-- stack_vm.rs: a workspace from the records and heads of a physical snapshot.
use forthdb.Prelude.{
  ℕ, zero, suc, ◌%◌, ◌^◌, ◌<◌, ◌≡◌, refl, inl, inr, ◌&&◌, ◌||◌, Bool, true, false, Option, none,
  some, List, [], ◌∷◌, foldl, length, get_elem?, replicate, ltb, ◌==◌, if◌then◌else◌, arith,
  Bool-cases, Option-cases, get_elem?-some, ltb-true, ==_false,
}
use forthdb.StackVm.Instruction.{SlotToken, Cell, none_ref}
use forthdb.StackVm.Record.{RecordKind, FactRecord, hash_record}
use forthdb.StackVm.Exec.{ok}
use forthdb.StackVm.Arena.{PodArena}
use forthdb.StackVm.Arena
use forthdb.StackVm.Record.{WorldRoot}
use forthdb.StackVm.Epoch.{publish_epoch, previous_record_frontier, next_root, resolve_object_at}
use mathlib.Core.Option
use forthdb.StackVm.Workspace.{
  find_delta, Workspace, hash_offset, resolve_object, accepted_head, object_of_head,
}

-- The messages, as data.
pub data SnapshotError : Type 0 where
  retained_records_exceed_total head_exceeds_records : SnapshotError
  invalid_record : ℕ → SnapshotError

pub data Loaded : Type 0 where
  loaded : Workspace → Loaded
  refused : SnapshotError → Loaded

abbrev is_define : RecordKind → Bool
is_define RecordKind.define = true
is_define RecordKind.forget = false

-- The test of the loop, that is, what makes a record valid at its index.
abbrev pub valid_record : ℕ → ℕ → FactRecord → Bool
valid_record slots index r =
    is_define r.kind
    && (r.resulting_visible == index % 2 ^ 32
        && ((r.previous_visible == none_ref || ltb r.previous_visible index) && ltb r.slot slots))

-- The first invalid record, from an index.
unfoldable pub first_invalid : ℕ → ℕ → List FactRecord → Option ℕ
first_invalid slots index [] = none
first_invalid slots index (r ∷ rs) =
    let rest = first_invalid slots (suc index) rs in
    if valid_record slots index r then rest else some index

unfoldable pub heads_fit : ℕ → List ℕ → Bool
heads_fit records [] = true
heads_fit records (head ∷ heads) = (head == none_ref || ltb head records) && heads_fit records heads

unfoldable pub loaded_workspace : ℕ → List FactRecord → List ℕ → ℕ → Workspace
loaded_workspace next_entity records heads total = record {
  stack = replicate 32 0;
  stack_pointer = 0;
  frame_base = 0;
  records = record { cells = records; frontier = length records };
  deltas = Arena.empty;
  index_deltas = Arena.empty;
  roots = Arena.empty;
  accepted_heads = heads;
  next_entity = next_entity;
  last_root = none_ref;
  version = 0;
  semantic_hash = foldl hash_record hash_offset records;
  track_indexes = true;
  historical_delta_offset = total;
}

abbrev load_checked : Option ℕ → Bool → Workspace → Loaded
load_checked (some index) fit ws = refused (invalid_record index)
load_checked none false ws = refused head_exceeds_records
load_checked none true ws = loaded ws

unfoldable pub from_physical_snapshot : ℕ → List FactRecord → List ℕ → ℕ → Loaded
from_physical_snapshot next_entity records heads total =
    if ltb total (length records)
    then refused retained_records_exceed_total
    else load_checked (first_invalid (length heads) 0 records) (heads_fit (length records) heads)
        (loaded_workspace next_entity records heads total)

-- What the snapshot holds for a slot.
abbrev pub head_object : List FactRecord → Option ℕ → Option Cell
head_object records none = none
head_object records (some head) =
    if head == none_ref then none else Option.map (λ r. r.object) (get_elem? records head)

heads_fit-bound :
    (records : ℕ) (heads : List ℕ) (slot head : ℕ)
    → heads_fit records heads ≡ true
    → get_elem? heads slot ≡ some head
    → (head == none_ref || ltb head records) ≡ true
unfolding heads_fit
heads_fit-bound records [] slot head h e = cc
heads_fit-bound records (x ∷ xs) zero head h e =
    let eq : x ≡ head = cc in rw (← eq) (ground (arith, h))
heads_fit-bound records (x ∷ xs) (suc slot) head h e =
    heads_fit-bound records xs slot head (ground (arith, h)) e

-- A snapshot that is accepted passed the test of its heads.
load-heads_fit :
    (next_entity : ℕ) (records : List FactRecord) (heads : List ℕ) (total : ℕ) {ws : Workspace}
    → from_physical_snapshot next_entity records heads total ≡ loaded ws
    → (heads_fit (length records) heads ≡ true)
      × (ws ≡ loaded_workspace next_entity records heads total)
unfolding from_physical_snapshot
load-heads_fit next_entity records heads total {ws} e =
    elim (Bool-cases (ltb total (length records))) [
      | inl p ↦
          let step : from_physical_snapshot next_entity records heads total
              ≡ refused retained_records_exceed_total =
            rw p refl in
          cc
      | inr p ↦ elim (Option-cases (first_invalid (length heads) 0 records)) [
        | inr (i, q) ↦
            let step : from_physical_snapshot next_entity records heads total
                ≡ refused (invalid_record i) =
              rw (p, q) refl in
            cc
        | inl q ↦ elim (Bool-cases (heads_fit (length records) heads)) [
          | inl r ↦
              let step : from_physical_snapshot next_entity records heads total
                  ≡ loaded (loaded_workspace next_entity records heads total) =
                rw (p, q, r) refl in
              (r, cc)
          | inr r ↦
              let step : from_physical_snapshot next_entity records heads total
                  ≡ refused head_exceeds_records =
                rw (p, q, r) refl in
              cc
        ]
      ]
    ]

object_of_head-loaded :
    (next_entity : ℕ) (records : List FactRecord) (heads : List ℕ) (total head : ℕ)
    → (head == none_ref || ltb head (length records)) ≡ true
    → object_of_head head (loaded_workspace next_entity records heads total)
      ≡ ok (head_object records (some head))
unfolding object_of_head loaded_workspace Arena.get
object_of_head-loaded next_entity records heads total head h =
    elim (Bool-cases (head == none_ref)) [
      | inl p ↦ rw p refl
      | inr p ↦
          let below : head < length records = ground (arith, h, p) in
          let (r, found) = get_elem?-some records head below in
          rw (p, ltb-true head (length records) below, found) refl
    ]

-- A workspace loaded from a snapshot resolves each slot, without a panic, to the object of the
-- record that the snapshot's head names, and to none where there is no head.
pub resolve_object-loaded :
    (next_entity : ℕ) (records : List FactRecord) (heads : List ℕ) (total : ℕ) {ws : Workspace}
    (slot : SlotToken)
    → from_physical_snapshot next_entity records heads total ≡ loaded ws
    → resolve_object slot ws ≡ ok (head_object records (get_elem? heads slot))
unfolding resolve_object accepted_head loaded_workspace
resolve_object-loaded next_entity records heads total {ws} slot e =
    let (fit, eq) = load-heads_fit next_entity records heads total e in
    rw eq (elim (Option-cases (get_elem? heads slot)) [
      | inl p ↦ rw p refl
      | inr (head, p) ↦ rw p (
          object_of_head-loaded next_entity records heads total head
            (heads_fit-bound (length records) heads slot head fit p))
    ])

-- A workspace that is loaded from a snapshot with records publishes a root at once, and at that
-- root every slot resolves to none, since the log of slot deltas starts empty.
pub published_snapshot-none :
    (next_entity : ℕ) (records : List FactRecord) (heads : List ℕ) (total : ℕ) {ws : Workspace}
    → from_physical_snapshot next_entity records heads total ≡ loaded ws
    → 0 < length records
    → (root : WorldRoot) × (ws' : Workspace) × (publish_epoch ws ≡ (ok (some root), ws'))
      × ((slot : SlotToken) → resolve_object_at root slot ws' ≡ ok none)
unfolding publish_epoch previous_record_frontier next_root loaded_workspace resolve_object_at
    Arena.push Arena.active find_delta
published_snapshot-none next_entity records heads total {ws} e some_records =
    let (fit, eq) = load-heads_fit next_entity records heads total e in
    rw (eq, ==_false (length records) 0 (omega arith)) (_, _, refl, λ slot. refl)
