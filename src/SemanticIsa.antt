-- ===== src/SemanticIsa.antt =====
-- rust/crates/forthdb-world/src/semantic_isa.rs: the binary framing of instruction streams.
pub mod Utf8
pub mod Cursor
pub mod Stream
mod Tests
