-- ===== src/Client/Platform.antt =====
-- What the client crate calls that is not its own: the compact text of a JSON value and the reading
-- of a JSON object (`serde_json`), the calendar of a time (`time`), the UUIDv7 drawn for the n-th
-- event of a store as text (`uuid`), the version that Cargo puts in, and the gzip
-- bytes of a text in UTF-8 (`flate2`), unless compressing fails.
use clickman.Base.{ℕ, Option, List}
use clickman.Base.Int.{ℤ}
use clickman.Base.Text.{Text}
use clickman.Json.{Value, Fields}
use clickman.Client.Clock.{Civil}

pub record Platform : Type 0 where
  pub render : Value → Text
  pub parse_object : Text → Option Fields
  pub civil : ℤ → Civil
  pub now_v7 : ℕ → Text
  pub version : Text
  pub compress : Text → Option (List ℕ)
