-- ===== src/Ingest/App.antt =====
-- `batch` of rust/crates/clickman-ingest/src/app.rs: one request on the settings, the rate limiter and
-- the table. A request gives its headers as texts, where they are there and are texts, and its body by
-- what `axum::body::to_bytes` reads of it within a limit.
pub mod Answers
pub mod Stored
pub mod Router
use clickman.Base.{
  ℕ, ◌+◌, ◌-◌, ◌/◌, ◌==◌, Bool, true, false, ◌||◌, Option, none, some, List, [], ◌∷◌, ◌++◌, length,
  max, if◌then◌else◌, any,
}
use clickman.Base.Int.{ℤ}
use clickman.Base.Text.{Text, text, text_eq, is_blank, trim}
use clickman.Protocol.Outcome.{Outcome, ok, err, panic}
use clickman.Protocol.Batch.{
  Event, Rejection, Normalized, BatchError, Externals, normalize, malformed,
}
use clickman.Ingest.Limiter.{Decision, Buckets, allowed, limited, second, check}
use clickman.Ingest.Body.{
  BodyError, too_large, unsupported_encoding, Decoded, body, refused, Gunzip, decode,
  max_wire_bytes,
}
use clickman.Ingest.Database.{Row, insert}
use clickman.Ingest.Settings.{Settings, source_for}

abbrev pub unavailable_retry_seconds : ℕ
unavailable_retry_seconds = 5

pub record Request : Type 0 where
  pub authorization : Option Text
  pub forwarded_for : Option Text
  pub peer : Option Text
  pub content_encoding : Option Text
  pub to_bytes : ℕ → Option (List ℕ)

pub data Reply : Type 0 where
  failure : Text → Reply
  malformed_batch : Text → Reply
  stored : ℕ → ℕ → List Rejection → Reply

pub record Response : Type 0 where
  pub status : ℕ
  pub retry_after : Option ℕ
  pub reply : Reply

-- What the requests share and change; no answer is a panic of the handler.
pub record AppState : Type 0 where
  pub buckets : Buckets
  pub rows : List Row

-- What the request meets: the two clocks, and whether the statement succeeds.
pub record Moment : Type 0 where
  pub received_at : ℤ
  pub instant : ℕ
  pub database_works : Bool

abbrev pub failing : ℕ → Text → Response
failing status code = record { status = status; retry_after = none; reply = failure code }

-- `with_retry_after`
abbrev pub failing_for : ℕ → Text → ℕ → Response
failing_for status code seconds = record (failing status code) {
  retry_after = some (max seconds 1);
}

-- `Duration::as_secs`
abbrev pub as_secs : ℕ → ℕ
as_secs duration = duration / second

-- `str::strip_prefix`
unfoldable pub strip_prefix : Text → Text → Option Text
strip_prefix [] s = some s
strip_prefix (p ∷ prefix) [] = none
strip_prefix (p ∷ prefix) (c ∷ s) = if p == c then strip_prefix prefix s else none

-- `map(str::trim).filter(|…| !….is_empty())`
abbrev pub trimmed : Option Text → Option Text
trimmed none = none
trimmed (some s) = if is_blank (trim s) then none else some (trim s)

abbrev pub strip_bearer : Option Text → Option Text
strip_bearer none = none
strip_bearer (some header) = strip_prefix (text "Bearer ") header

unfoldable pub bearer : Request → Option Text
bearer request = trimmed (strip_bearer request.authorization)

-- `split(',').next()`
unfoldable pub first_hop : Text → Text
first_hop [] = []
first_hop (c ∷ s) = let rest = first_hop s in if c == b',' then [] else c ∷ rest

abbrev pub hop_of : Option Text → Option Text
hop_of none = none
hop_of (some header) = trimmed (some (first_hop header))

abbrev pub address_of : Option Text → Option Text → Text
address_of (some hop) peer = hop
address_of none (some address) = address
address_of none none = text "unknown"

unfoldable pub client_address : Request → Text
unfolding first_hop
client_address request = address_of (hop_of request.forwarded_for) request.peer

module _ (x : Externals) (gunzip : List ℕ → Gunzip) (sha256 : List ℕ → List ℕ)
    (settings : Settings) where
  -- The insertion of what was normalized, and the answer. Without events there is no statement to fail.
  unfoldable pub store : Normalized → Moment → List Row → Option Response × List Row
  store normalized moment rows =
      if moment.database_works || length normalized.events == 0
      then (
        some (record {
          status = 202;
          retry_after = none;
          reply =
              stored (insert normalized.events moment.received_at rows).0
                (length normalized.events - (insert normalized.events moment.received_at rows).0)
                normalized.rejected;
        }),
        (insert normalized.events moment.received_at rows).1,
      )
      else (some (failing_for 503 (text "unavailable") unavailable_retry_seconds), rows)

  abbrev pub malformed_answer : Text → Response
  malformed_answer message = record {
    status = 400;
    retry_after = none;
    reply = malformed_batch message;
  }

  unfoldable pub after_normalize :
      Outcome BatchError Normalized → Moment → List Row → Option Response × List Row
  unfolding store
  after_normalize (ok normalized) moment rows = store normalized moment rows
  after_normalize (err (malformed message)) moment rows = (some (malformed_answer message), rows)
  after_normalize panic moment rows = (none, rows)

  unfoldable pub after_decode : Decoded → Moment → List Row → Option Response × List Row
  unfolding after_normalize
  after_decode (body bytes) moment rows =
      after_normalize (normalize x bytes moment.received_at settings.fragments settings.limits)
        moment rows
  after_decode (refused too_large) moment rows = (some (failing 413 (text "batch_too_large")), rows)
  after_decode (refused unsupported_encoding) moment rows =
      (some (failing 415 (text "unsupported_encoding")), rows)
  after_decode (refused (BodyError.malformed message)) moment rows =
      (some (malformed_answer message), rows)

  unfoldable pub after_read :
      Option (List ℕ) → Option Text → Moment → List Row → Option Response × List Row
  unfolding after_decode
  after_read none encoding moment rows = (some (failing 413 (text "batch_too_large")), rows)
  after_read (some bytes) encoding moment rows =
      after_decode (decode gunzip encoding bytes) moment rows

  unfoldable pub after_check :
      Option Decision → Request → Moment → List Row → Option Response × List Row
  unfolding after_read
  after_check none request moment rows = (none, rows)
  after_check (some (limited retry_after)) request moment rows =
      (some (failing_for 429 (text "rate_limited") (as_secs retry_after)), rows)
  after_check (some allowed) request moment rows =
      after_read (request.to_bytes max_wire_bytes) request.content_encoding moment rows

  abbrev pub source_of : Option Text → Option Text
  source_of none = none
  source_of (some key) = source_for sha256 settings key

  abbrev pub limit_of : Text → Request → Moment → AppState → Option Decision × Buckets
  limit_of source request moment state =
      check x.floats (source ++ b':' ∷ client_address request) settings.rate_limit moment.instant
        state.buckets

  -- The handler, for the source that the write key is known to belong to.
  abbrev pub handle : Option Text → Request → Moment → AppState → Option Response × AppState
  handle none request moment state = (some (failing 401 (text "invalid_write_key")), state)
  handle (some source) request moment state =
      let (decision, buckets) = limit_of source request moment state in
      let (answer, rows) = after_check decision request moment state.rows in
      (answer, record { buckets = buckets; rows = rows })

  unfoldable pub batch : Request → Moment → AppState → Option Response × AppState
  unfolding after_check
  batch request moment state = handle (source_of (bearer request)) request moment state
