-- ===== src/World.antt =====
-- rust/crates/forthdb-world/src/lib.rs: worlds as commits over the kernel.
pub mod Commit
pub mod Replay
pub mod Database
