-- ===== src/Wire/Tests/Arriving.antt =====
-- The theorem about a batch that the server takes, at the same queue and server.
use clickman.Base.{◌≡◌, ◌≤◌, refl, some, [], ◌∷◌, length, arith}
use clickman.Base.Int.{pos, ◌+ℤ◌, ◌-ℤ◌}
use clickman.Base.Text.{Text, text, as_bytes, trim}
use clickman.Base.Decimal.{padded}
use clickman.Json.{end, as_str, as_object, as_array}
use clickman.Json.Map.{get, len, any_key, map_values}
use clickman.Client.Error.{ok}
use clickman.Client.Clock.{rfc3339_millis}
use clickman.Client.Outcome.{delivered}
use clickman.Client.Queue.{forced, payload}
use clickman.Client.Sender.{SenderState, in_flight, clear, reserve, send_next}
use clickman.Client.Sender.Keeps.{request}
use clickman.Client.Tests.{config, platform, float}
use clickman.Protocol.Flatten.{flatten}
use clickman.Protocol.Sanitize.{sanitize}
use clickman.Protocol.Outcome
use clickman.Protocol.Outcome.{◌>>=◌, refuse_if}
use clickman.Protocol.Batch.{Normalized, normalize}
use clickman.Ingest.App.{batch, limit_of}
use clickman.Ingest.App.Stored.{stored_as}
use clickman.Ingest.Body.{max_decompressed_bytes, max_wire_bytes}
use clickman.Ingest.Limiter.{allowed, check}
use clickman.Ingest.Settings.{source_for}
use clickman.Ingest.Tests.{settings, state, moment}
use clickman.Wire.Arrival.{IsKey, sent-delivered}
use clickman.Wire.Tests.Delivering.{
  queue, one, reading, gunzip, arrived, arrived-Carried, served_attempt, sent_at, one-Formats,
  takes_one,
}

abbrev pub wire : Text
wire = payload one sent_at

abbrev normalized : Normalized
normalized = record {
  events =
      record {
        message_id = 2;
        event = text "x";
        external_id = text "u";
        occurred_at = pos 3 +ℤ (pos 0 -ℤ pos 3);
        properties = end;
        context = end;
      }
      ∷ [];
  rejected = [];
}

abbrev reserved : SenderState
reserved = record { flight = in_flight; backoff = clear }

pub is_key : IsKey config.write_key
unfolding trim
is_key = (refl, refl)

pub known : source_for (λ s. s) settings config.write_key ≡ some (text "web")
unfolding source_for as_bytes
known = refl

let_through :
    (limit_of reading gunzip
      (λ s. s)
      settings
      (text "web")
      (arrived (request platform float config served_attempt wire))
      moment
      state).0
    ≡ some allowed
unfolding check
let_through = refl

pub fits : length wire ≤ max_wire_bytes
unfolding payload rfc3339_millis padded
fits = omega arith

pub small : length (as_bytes (payload one sent_at)) ≤ max_decompressed_bytes
unfolding payload rfc3339_millis padded as_bytes
small = omega arith

normal :
    normalize reading
      (as_bytes (payload one sent_at))
      moment.received_at
      settings.fragments
      settings.limits
    ≡ Outcome.ok normalized
unfolding payload rfc3339_millis padded as_bytes normalize ◌>>=◌ refuse_if get as_str as_object
    as_array ◌+ℤ◌ len any_key flatten ◌-ℤ◌ sanitize map_values
normal = refl

sent-delivered_example :
    ((send_next platform float config forced served_attempt queue).0 ≡ ok (some delivered))
    × ((batch reading gunzip
          (λ s. s)
          settings
          (arrived (request platform float config served_attempt wire))
          moment
          state).0
        ≡ (stored_as reading gunzip (λ s. s) settings moment state.rows normalized).0)
unfolding reserve
sent-delivered_example =
    sent-delivered platform float config reading gunzip (λ s. s) settings moment state arrived
      arrived-Carried forced served_attempt queue reserved one wire (text "web") normalized
      one-Formats (λ sent. refl) refl takes_one refl is_key known let_through fits small normal refl
