-- ===== src/Client.antt =====
-- The crate rust/crates/clickman: the device client, which keeps tracked events in a queue and
-- sends them in batches.
pub mod Config
pub mod Clock
pub mod Outcome
pub mod Error
pub mod Backoff
pub mod Store
pub mod Queue
pub mod Platform
pub mod Identity
pub mod Context
pub mod Event
pub mod Launch
pub mod Sender
pub mod App
pub mod Refine
pub mod Tests
