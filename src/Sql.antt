-- ===== src/Sql.antt =====
-- pkg/sqldriver: the adapter from drivers of database/sql to the engine.
pub mod Value
pub mod Conn
pub mod Rows
mod Tests
