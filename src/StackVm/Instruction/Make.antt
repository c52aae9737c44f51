-- ===== src/StackVm/Instruction/Make.antt =====
-- stack_vm.rs: the constructor functions of `Instruction`, such as `Instruction::push`.
use forthdb.Prelude.{ℕ}
use forthdb.StackVm.Instruction.{Cell, SlotToken, Opcode, Instruction, instruction}

abbrev pub expect_object : SlotToken → Cell → Instruction
expect_object slot expected = instruction Opcode.expect_object slot expected

abbrev pub allocate : Instruction
allocate = instruction Opcode.allocate 0 0

abbrev pub allocate_discard : Instruction
allocate_discard = instruction Opcode.allocate_discard 0 0

abbrev pub load_local : ℕ → Instruction
load_local local = instruction Opcode.load_local local 0

abbrev pub store_local : ℕ → Instruction
store_local local = instruction Opcode.store_local local 0

abbrev pub push : Cell → Instruction
push cell = instruction Opcode.push_cell 0 cell

abbrev pub define : SlotToken → Instruction
define slot = instruction Opcode.define slot 0

abbrev pub forget : SlotToken → Instruction
forget slot = instruction Opcode.forget slot 0

abbrev pub reject : Instruction
reject = instruction Opcode.reject 0 0
