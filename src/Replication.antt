-- ===== src/Replication.antt =====
-- pkg/vendors/postgres/cdc: the stream of row changes that a PostgreSQL server replicates.
pub mod Decode
pub mod Stream
pub mod Catalog
pub mod Statements
pub mod Subscriber
mod Tests
