-- ===== src/Protocol.antt =====
-- The crate rust/crates/clickman-protocol: what the server and the clients share of the wire
-- protocol (docs/PROTOCOL.md).
pub mod Flatten
pub mod Merge
pub mod Sanitize
pub mod Outcome
pub mod Data
pub mod Batch
pub mod Tests
