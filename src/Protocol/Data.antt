-- ===== src/Protocol/Data.antt =====
-- The types of rust/crates/clickman-protocol/src/batch.rs: the limits, an accepted event, a rejection, and the
-- code that is not in the repository, as the record `Externals`. A time is its nanoseconds since 1970 and a
-- `Duration` its nanoseconds.
use clickman.Base.{ℕ, ◌*◌, Bool, Option, List}
use clickman.Base.Int.{ℤ, pos}
use clickman.Base.Floats.{Floats}
use clickman.Base.Text.{Text}
use clickman.Json.{Value, Fields}
use clickman.Protocol.Outcome.{Outcome}

abbrev pub hour : ℕ
hour = 3600 * 1_000_000_000

abbrev pub day : ℕ
day = 24 * hour

pub record Limits : Type 0 where
  pub max_events : ℕ
  pub max_event_age : ℤ
  pub max_future : ℤ
  pub max_property_keys : ℕ
  pub max_context_keys : ℕ
  pub max_key_chars : ℕ
  pub max_event_chars : ℕ
  pub max_external_id_chars : ℕ

-- `Limits::default`
abbrev pub default_limits : Limits
default_limits = record {
  max_events = 500;
  max_event_age = pos (90 * day);
  max_future = pos hour;
  max_property_keys = 128;
  max_context_keys = 64;
  max_key_chars = 128;
  max_event_chars = 200;
  max_external_id_chars = 256;
}

pub data Reason : Type 0 where
  unsupported_type : Reason
  invalid_message_id : Reason
  invalid_event : Reason
  invalid_external_id : Reason
  invalid_timestamp : Reason
  timestamp_out_of_range : Reason
  invalid_properties : Reason
  invalid_context : Reason
  too_many_keys : Reason

-- A `Uuid` is its 128 bits.
pub record Event : Type 0 where
  pub message_id : ℕ
  pub event : Text
  pub external_id : Text
  pub occurred_at : ℤ
  pub properties : Fields
  pub context : Fields

pub record Rejection : Type 0 where
  pub index : ℕ
  pub message_id : Option Text
  pub reason : Reason

pub record Normalized : Type 0 where
  pub events : List Event
  pub rejected : List Rejection

-- `BatchError::Malformed`
pub data BatchError : Type 0 where
  malformed : Text → BatchError

-- `serde_json::from_slice` with the text of its error, `Value::to_string`, `Uuid::parse_str`,
-- `OffsetDateTime::parse` with `Rfc3339`, the sum and the difference of a time and a duration, which
-- panic where there is no value, what the sanitizer calls, and the `f64` arithmetic of the rate limiter.
pub record Externals : Type 0 where
  pub from_slice : List ℕ → Outcome Text Value
  pub render : Value → Text
  pub parse_uuid : Text → Option ℕ
  pub parse_time : Text → Option ℤ
  pub add_time : ℤ → ℤ → Option ℤ
  pub sub_time : ℤ → ℤ → Option ℤ
  pub is_alphanumeric : ℕ → Bool
  pub to_lowercase : Text → Text
  pub is_email : Text → Bool
  pub floats : Floats
