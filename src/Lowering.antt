-- ===== src/Lowering.antt =====
-- rust/crates/forthdb-world/src/transaction_ast.rs: transactions written with names, and their
-- lowering to the instruction stream of the virtual machine.
pub mod Names
pub mod Syntax
pub mod Context
pub mod Handles
pub mod Lower
pub mod Plan
pub mod Reference
pub mod Faults
pub mod Depth
pub mod Collision
mod Tests
