-- ===== src/StackVm.antt =====
-- rust/crates/forthdb-world/src/stack_vm.rs: the semantic stack machine.
pub mod Instruction
pub mod Record
pub mod Arena
pub mod Log
pub mod Exec
pub mod Workspace
pub mod Execute
pub mod Epoch
pub mod Depth
pub mod Index
pub mod Snapshot
pub mod Machine
mod Tests
