-- ===== src/StackVm/Instruction.antt =====
-- stack_vm.rs: opcodes, instructions and programs. A `Cell` (u64) and a `SlotToken` (u32) are
-- native numbers; `none_ref` is the constant NONE.
pub mod Make
use forthdb.Prelude.{ℕ, ◌-◌, ◌^◌, ◌≡◌, refl, ◌↔◌, List, arith, ◌==◌, if◌then◌else◌}

abbrev pub none_ref : ℕ
none_ref = 2 ^ 32 - 1

abbrev pub Cell : Type 0
Cell = ℕ

abbrev pub SlotToken : Type 0
SlotToken = ℕ

pub data Opcode : Type 0 where
  expect_object allocate allocate_discard load_local store_local push_cell : Opcode
  define forget reject : Opcode

-- `opcode as u8`
unfoldable pub to_u8 : Opcode → ℕ
to_u8 Opcode.expect_object = 0
to_u8 Opcode.allocate = 1
to_u8 Opcode.allocate_discard = 2
to_u8 Opcode.load_local = 3
to_u8 Opcode.store_local = 4
to_u8 Opcode.push_cell = 5
to_u8 Opcode.define = 6
to_u8 Opcode.forget = 7
to_u8 Opcode.reject = 8

-- The error carries the byte that the message prints.
pub data OpcodeResult : Type 0 where
  known : Opcode → OpcodeResult
  unknown : ℕ → OpcodeResult

unfoldable pub from_u8 : ℕ → OpcodeResult
from_u8 value =
    if value == 0
    then known Opcode.expect_object
    else if value == 1
    then known Opcode.allocate
    else if value == 2
    then known Opcode.allocate_discard
    else if value == 3
    then known Opcode.load_local
    else if value == 4
    then known Opcode.store_local
    else if value == 5
    then known Opcode.push_cell
    else if value == 6
    then known Opcode.define
    else if value == 7
    then known Opcode.forget
    else if value == 8
    then known Opcode.reject
    else unknown value

pub record Instruction : Type 0 where
  pub opcode : Opcode
  pub argument : ℕ
  pub immediate : ℕ

abbrev pub instruction : Opcode → ℕ → ℕ → Instruction
instruction opcode argument immediate = record {
  opcode = opcode;
  argument = argument;
  immediate = immediate;
}

pub record IntentProgram : Type 0 where
  pub local_count : ℕ
  pub instructions : List Instruction

-- `from_u8` inverts `as u8` and accepts no other byte: it knows exactly the bytes below 9.
pub from_u8-known_iff : (value : ℕ) (op : Opcode) → (from_u8 value ≡ known op) ↔ (value ≡ to_u8 op)
unfolding from_u8 to_u8
from_u8-known_iff value op = (λ h. ground arith, λ h. ground arith)
