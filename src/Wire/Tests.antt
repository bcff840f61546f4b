-- ===== src/Wire/Tests.antt =====
-- The theorem about the client and the server together, at the test data of both.
pub mod Delivering
pub mod Arriving
pub mod Removing
pub mod Refusing
use clickman.Base.{◌≡◌, refl, some, [], arith}
use clickman.Base.Int.{pos, ◌≤ℤ◌, saturating_add, saturating_sub}
use clickman.Base.Decimal.{decimal, padded}
use clickman.Client.Outcome.{of}
use clickman.Client.Backoff.{retry_after}
use clickman.Base.Text.{text, trim}
use clickman.Client.Clock.{unix_millis, millis, rfc3339_millis}
use clickman.Client.Queue.{forced, take_batch}
use clickman.Client.Sender.{Attempt, response, SenderState, in_flight, waiting, send_next}
use clickman.Client.Tests.{config, platform, float}
use clickman.Client.Tests.Sending.{attempt_with, world}
use clickman.Ingest.App.{failing_for}
use clickman.Json.{end}
use clickman.Client.Identity.{Actor, is_valid_text}
use clickman.Client.Event.{Recorder, event_body}
use clickman.Protocol.Batch.{default_limits, normalize_event}
use clickman.Protocol.Tests.{externals}
use clickman.Wire.Agree.{Within, Late, Named, recorded-understood}
use clickman.Wire.{over_wire, advised, limited-waits}

abbrev told_to_wait : Attempt float
told_to_wait = record (attempt_with 429) {
  reply = λ _. response (over_wire (failing_for 429 (text "rate_limited") 1));
}

abbrev next : SenderState
next = record { flight = in_flight; backoff = waiting 1 (pos 10_000) }

limited-waits_example : advised platform float config (pos 5_000_000_000) 1 ≤ℤ pos 10_000
unfolding send_next take_batch saturating_sub unix_millis millis of saturating_add retry_after trim
    decimal
limited-waits_example =
    limited-waits platform float config forced told_to_wait world 1_000_000_000 (pos 10_000) next
      (λ _. refl) refl refl (omega arith) (omega arith)

abbrev recorder : Recorder
recorder = record { context = end; now = pos 5_000_000_000; max_queue = 10 }

abbrev anonymous : Actor
anonymous = record { external_id = text "*"; traits = end }

recorded-understood_example : Within Late (Named externals 36 (text "opened") (text "*")) (
    normalize_event externals [] default_limits (pos 0) (pos 10) end (
      event_body platform recorder anonymous
        (text "01890a5d-ac96-774b-bcce-b302099a8057")
        (text "opened")
        end))
unfolding is_valid_text rfc3339_millis padded
recorded-understood_example =
    recorded-understood externals platform recorder anonymous
      (text "01890a5d-ac96-774b-bcce-b302099a8057") (text "opened") end [] (pos 0) (pos 10) end 36
      (pos 24) refl refl refl refl
