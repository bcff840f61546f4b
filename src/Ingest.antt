-- ===== src/Ingest.antt =====
-- The crate rust/crates/clickman-ingest: the server that takes batches.
pub mod Limiter
pub mod Body
pub mod Database
pub mod App
pub mod Settings
pub mod Schema
pub mod Server
pub mod Tests
pub mod Configuration
