-- ===== src/StackVm/Workspace.antt =====
-- stack_vm.rs: `Workspace`, its constructors, and the operations on its stack and heads.
pub mod Heads
use mathlib.Core.List.{reverse}
use forthdb.Prelude.{
  ℕ, zero, suc, ◌+◌, ◌-◌, ◌*◌, ◌%◌, ◌^◌, Bool, true, false, Option, none, some, List, [], ◌∷◌, ◌++◌,
  foldl, length, get_elem?, set, drop, replicate, ltb, leb, ◌==◌, if◌then◌else◌, saturating_add,
  ◌||◌, ◌&&◌, not,
}
use forthdb.StackVm.Exec.{
  Result, ok, err, panic, or_panic, and_then, Exec, pure, reading, ◌>>=◌, ◌>>◌, stack_underflow,
  stack_overflow, invalid_local, invalid_slot,
}
use forthdb.StackVm.Instruction.{Cell, SlotToken, none_ref}
use forthdb.StackVm.Record.{FactRecord, SlotDelta, IndexDelta, WorldRoot, hash_record, RecordKind}
use forthdb.StackVm.Arena.{PodArena}
use forthdb.StackVm.Arena

pub record Workspace : Type 0 where
  pub stack : List Cell
  pub stack_pointer : ℕ
  pub frame_base : ℕ
  pub records : PodArena FactRecord
  pub deltas : PodArena SlotDelta
  pub index_deltas : PodArena IndexDelta
  pub roots : PodArena WorldRoot
  pub accepted_heads : List ℕ
  pub next_entity : ℕ
  pub last_root : ℕ
  pub version : ℕ
  pub semantic_hash : ℕ
  pub track_indexes : Bool
  pub historical_delta_offset : ℕ

abbrev pub hash_offset : ℕ
hash_offset = 0xcbf2_9ce4_8422_2325

-- The capacities of the arenas only reserve memory.
unfoldable pub new : ℕ → ℕ → Bool → Workspace
new slot_count stack_capacity track_indexes = record {
  stack = replicate stack_capacity 0;
  stack_pointer = 0;
  frame_base = 0;
  records = Arena.empty;
  deltas = Arena.empty;
  index_deltas = Arena.empty;
  roots = Arena.empty;
  accepted_heads = replicate slot_count none_ref;
  next_entity = 1;
  last_root = none_ref;
  version = 0;
  semantic_hash = hash_offset;
  track_indexes = track_indexes;
  historical_delta_offset = 0;
}

unfoldable pub with_capacity : ℕ → ℕ → Workspace
unfolding new
with_capacity slot_count stack_capacity = new slot_count stack_capacity false

unfoldable pub with_indexes : ℕ → ℕ → Workspace
unfolding new
with_indexes slot_count stack_capacity = new slot_count stack_capacity true

unfoldable pub with_indexes_from : ℕ → ℕ → ℕ → Workspace
unfolding new
with_indexes_from next_entity slot_count stack_capacity =
    record (new slot_count stack_capacity true) { next_entity = next_entity }

abbrev pub resize : List ℕ → ℕ → List ℕ
resize heads slot_count = heads ++ replicate (slot_count - length heads) none_ref

unfoldable pub ensure_slot_count : ℕ → Workspace → Workspace
ensure_slot_count slot_count ws =
    if ltb (length ws.accepted_heads) slot_count
    then record ws { accepted_heads = resize ws.accepted_heads slot_count }
    else ws

-- The operand stack. Locals are the cells from the frame base on.
unfoldable pub reserve : ℕ → Exec Workspace (Unit {0})
reserve cells ws =
    if ltb (length ws.stack) (saturating_add ws.stack_pointer cells)
    then (err stack_overflow, ws)
    else (ok tt, record ws { stack_pointer = ws.stack_pointer + cells })

unfoldable pub push : Cell → Exec Workspace (Unit {0})
push value ws =
    if ws.stack_pointer == length ws.stack
    then (err stack_overflow, ws)
    else if ltb ws.stack_pointer (length ws.stack)
    then (
      ok tt,
      record ws {
        stack = set ws.stack ws.stack_pointer value;
        stack_pointer = ws.stack_pointer + 1;
      },
    )
    else (panic, ws)

unfoldable pub pop : Exec Workspace Cell
pop ws =
    if leb ws.stack_pointer ws.frame_base
    then (err stack_underflow, ws)
    else (let below = ws.stack_pointer - 1 in
        (or_panic (get_elem? ws.stack below), record ws { stack_pointer = below }))

unfoldable pub local : ℕ → Workspace → Result Cell
local index ws =
    let at = saturating_add ws.frame_base index in
    if leb ws.stack_pointer at then err invalid_local else or_panic (get_elem? ws.stack at)

-- `let local = self.local_mut(index)?; *local = value;`
unfoldable pub store_local : ℕ → Cell → Exec Workspace (Unit {0})
store_local index value ws =
    let at = saturating_add ws.frame_base index in
    if leb ws.stack_pointer at
    then (err invalid_local, ws)
    else if ltb at (length ws.stack)
    then (ok tt, record ws { stack = set ws.stack at value })
    else (panic, ws)

-- `.ok_or(ExecError::InvalidSlot)`
abbrev pub or_invalid_slot : Option ℕ → Result ℕ
or_invalid_slot none = err invalid_slot
or_invalid_slot (some head) = ok head

unfoldable pub accepted_head : SlotToken → Workspace → Result ℕ
accepted_head slot ws = or_invalid_slot (get_elem? ws.accepted_heads slot)

-- The loop of `resolve_trial_head` over the reversed deltas of the trial.
unfoldable pub find_delta : SlotToken → List SlotDelta → Option ℕ
find_delta slot [] = none
find_delta slot (d ∷ ds) = if d.slot == slot then some d.resulting_visible else find_delta slot ds

-- `&self.deltas.active()[frontier..]`
abbrev pub slice_from : {T : Type 0} → ℕ → List T → Option (List T)
slice_from frontier xs = if leb frontier (length xs) then some (drop frontier xs) else none

abbrev pub trial_slice : {T : Type 0} → ℕ → PodArena T → Result (List T)
trial_slice frontier arena =
    and_then (or_panic (Arena.active arena)) (λ xs. or_panic (slice_from frontier xs))

abbrev pub or_head : Option ℕ → Result ℕ → Result ℕ
or_head none accepted = accepted
or_head (some head) accepted = ok head

unfoldable pub resolve_trial_head : SlotToken → ℕ → Workspace → Result ℕ
resolve_trial_head slot trial_delta_frontier ws = and_then (accepted_head slot ws) (λ _.
    and_then (trial_slice trial_delta_frontier ws.deltas)
      (λ trial. or_head (find_delta slot (reverse trial)) (accepted_head slot ws)))

-- `(head != NONE).then(|| self.records.get(head).object)`
unfoldable pub object_of_head : ℕ → Workspace → Result (Option Cell)
object_of_head head ws =
    if head == none_ref
    then ok none
    else and_then (or_panic (Arena.get head ws.records)) (λ r. ok (some r.object))

unfoldable pub resolve_trial_object : SlotToken → ℕ → Workspace → Result (Option Cell)
resolve_trial_object slot trial_delta_frontier ws =
    and_then (resolve_trial_head slot trial_delta_frontier ws) (λ head. object_of_head head ws)

-- `self.accepted_head(slot).ok()?`, then the object of the head.
abbrev pub object_if_ok : Result ℕ → Workspace → Result (Option Cell)
object_if_ok (ok head) ws = object_of_head head ws
object_if_ok (err e) ws = ok none
object_if_ok panic ws = panic

unfoldable pub resolve_object : SlotToken → Workspace → Result (Option Cell)
resolve_object slot ws = object_if_ok (accepted_head slot ws) ws
