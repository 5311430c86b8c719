-- ===== src/Pooling.antt =====
-- The vendor-agnostic pooling engine, pkg/pooling: a module for each of its files.
pub mod Permit
pub mod Shard
pub mod Conn
pub mod Config
pub mod Core
pub mod Stats
pub mod History
mod Tests
