-- ===== src/Kernel.antt =====
-- forthdb-core: the definition kernel.
pub mod Value
pub mod Store
pub mod Index
pub mod Binding
pub mod View
pub mod Db
pub mod Shared
pub mod Unify
pub mod Query
pub mod Symbols
mod Tests
