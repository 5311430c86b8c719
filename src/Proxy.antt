-- ===== src/Proxy.antt =====
-- examples/gpoolproxy: a proxy that pools server connections between the transactions of clients.
pub mod Statements
pub mod Wire
pub mod Scram
pub mod Users
pub mod Startup
pub mod Session
pub mod Backend
pub mod Relay
mod Tests
