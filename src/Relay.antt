-- ===== src/Relay.antt =====
-- The relay client, src/relay/client.rs.
pub mod Lease
pub mod Ingest
pub mod Manager
pub mod Frame
pub mod Dispatcher
