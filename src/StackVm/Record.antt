-- ===== src/StackVm/Record.antt =====
-- stack_vm.rs: the plain-data records of the arenas, and the hash that chains them.
use Prim.Native.Nat.{bit_xor}
use forthdb.Prelude.{ℕ, ◌*◌, ◌%◌, ◌^◌, Bool, [], ◌∷◌, foldl}
use forthdb.StackVm.Instruction.{Cell, SlotToken}

pub data RecordKind : Type 0 where
  define forget : RecordKind

pub record FactRecord : Type 0 where
  pub kind : RecordKind
  pub slot : SlotToken
  pub subject : Cell
  pub predicate : Cell
  pub object : Cell
  pub previous_visible : ℕ
  pub resulting_visible : ℕ

pub record SlotDelta : Type 0 where
  pub slot : SlotToken
  pub previous_visible : ℕ
  pub resulting_visible : ℕ

-- The delta that `define` and `forget` push beside their record.
abbrev pub delta_of : FactRecord → SlotDelta
delta_of r = record {
  slot = r.slot;
  previous_visible = r.previous_visible;
  resulting_visible = r.resulting_visible;
}

pub data IndexPermutation : Type 0 where
  spo pos osp : IndexPermutation

pub record IndexDelta : Type 0 where
  pub permutation : IndexPermutation
  pub added : Bool
  pub first : Cell
  pub second : Cell
  pub third : Cell
  pub record_ref : ℕ
  pub slot : SlotToken

pub record WorldRoot : Type 0 where
  pub parent : ℕ
  pub version : ℕ
  pub record_frontier : ℕ
  pub slot_delta_frontier : ℕ
  pub index_delta_frontier : ℕ
  pub allocator_head : ℕ
  pub world_id : ℕ

-- `record.kind as u64`
kind_u64 : RecordKind → ℕ
kind_u64 RecordKind.define = 0
kind_u64 RecordKind.forget = 1

-- One round of the loop: `hash ^= value; hash = hash.wrapping_mul(PRIME)`.
hash_value : ℕ → ℕ → ℕ
hash_value hash value = bit_xor hash value * 0x100_0000_01b3 % 2 ^ 64

unfoldable pub hash_record : ℕ → FactRecord → ℕ
unfolding kind_u64 hash_value
hash_record hash r = foldl hash_value hash (
    kind_u64 r.kind
    ∷ r.slot
    ∷ r.subject
    ∷ r.predicate
    ∷ r.object
    ∷ r.previous_visible
    ∷ r.resulting_visible
    ∷ [])
