-- ===== src/Client/Config.antt =====
-- rust/crates/clickman/src/config.rs. A `Duration` is its count of nanoseconds.
use clickman.Base.{ℕ, ◌*◌}
use clickman.Base.Text.{Text}

abbrev pub from_secs : ℕ → ℕ
from_secs s = s * 1_000_000_000

abbrev pub from_millis : ℕ → ℕ
from_millis ms = ms * 1_000_000

pub record Config : Type 0 where
  pub endpoint : Text
  pub write_key : Text
  pub path : Text
  pub flush_at : ℕ
  pub flush_interval : ℕ
  pub max_queue : ℕ
  pub max_age : ℕ
  pub max_batch_events : ℕ
  pub max_batch_bytes : ℕ

abbrev pub new : Text → Text → Text → Config
new endpoint write_key path = record {
  endpoint = endpoint;
  write_key = write_key;
  path = path;
  flush_at = 20;
  flush_interval = from_secs 30;
  max_queue = 10_000;
  max_age = from_secs (30 * 24 * 60 * 60);
  max_batch_events = 100;
  max_batch_bytes = 900_000;
}
