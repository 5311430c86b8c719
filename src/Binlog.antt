-- ===== src/Binlog.antt =====
-- vendors/mysql/cdc: change capture from the binary log of MySQL and MariaDB.
pub mod Position
pub mod Filter
pub mod Columns
pub mod Rows
pub mod Reader
mod Tests
