-- ===== src/Wire/Tests/Delivering.antt =====
-- The theorem about a delivered batch, at a queue of one event and the server of the tests.
use clickman.Base.{
  ℕ, ◌≡◌, refl, sym, ◌∙◌, none, some, List, [], ◌∷◌, length, ◌==◌, leb, if◌then◌else◌, arith,
}
use clickman.Base.Int.{pos, saturating_sub, ◌+ℤ◌}
use clickman.Base.Text.{Text, text, as_bytes, trim}
use clickman.Base.Decimal.{padded}
use clickman.Json.{
  Value, Items, Fields, nil, cons, obj, str, arr, end, field, as_str, as_object, as_array,
}
use clickman.Json.Map.{get, len, any_key}
use clickman.Protocol.Flatten.{flatten}
use clickman.Client.Clock.{unix_millis, millis, rfc3339_millis}
use clickman.Client.Error.{ok}
use clickman.Client.Outcome.{delivered, of}
use clickman.Client.Queue.{Batch, forced, payload, take_batch}
use clickman.Client.Sender
use clickman.Client.Sender.{Attempt, World, default_state, send_next}
use clickman.Client.Sender.Keeps.{request}
use clickman.Client.Store.{anonymous}
use clickman.Client.Tests.{row, config, platform, float}
use clickman.Client.Tests.Sending.{attempt_with}
use clickman.Protocol.Outcome
use clickman.Protocol.Outcome.{◌>>=◌, refuse_if}
use clickman.Protocol.Batch.{Externals, normalize}
use clickman.Protocol.Batch.Split.{item_at}
use clickman.Protocol.Tests.{externals, item}
use clickman.Ingest.App
use clickman.Ingest.App.{Moment, batch}
use clickman.Ingest.Body.{Gunzip, decode}
use clickman.Ingest.Limiter.{check}
use clickman.Ingest.Settings.{source_for}
use clickman.Ingest.Tests.{settings, state, moment}
use clickman.Wire.Carriage.{find_header, Carried, Formats, Parsed, replied}
use clickman.Wire.Delivery.{Accounted, delivered-stored}

abbrev pub queue : World
queue = record {
  database = record { events = row 1 ∷ []; sequence = 1; identity = anonymous };
  state = default_state;
}

abbrev pub one : Batch
one = record { last_seq = 1; bodies = text "{}" ∷ [] }

abbrev pub root : Fields
root =
    field (text "sentAt") (str (text "now")) (field (text "batch") (arr (cons (obj item) nil)) end)

-- Two bytes are the body of the event, and any more are the payload.
abbrev pub reading : Externals
reading = record externals {
  from_slice = λ bytes. Outcome.ok (if length bytes == 2 then obj item else obj root);
}

abbrev pub gunzip : List ℕ → Gunzip
gunzip wire = record { output = as_bytes wire; broken = none }

abbrev pub arrived : Sender.Request → App.Request
arrived sent = record {
  authorization = find_header (text "Authorization") sent.headers;
  forwarded_for = none;
  peer = none;
  content_encoding = find_header (text "Content-Encoding") sent.headers;
  to_bytes = λ limit. if leb (length sent.body) limit then some sent.body else none;
}

pub arrived-Carried : (sent : Sender.Request) → Carried sent (arrived sent)
arrived-Carried sent = record {
  authorization = refl;
  content_encoding = refl;
  to_bytes = λ limit. refl;
}

abbrev pub served_attempt : Attempt float
served_attempt = record (attempt_with 202) {
  reply = λ sent. replied (batch reading gunzip (λ s. s) settings (arrived sent) moment state).0;
}

abbrev pub sent_at : Text
sent_at = rfc3339_millis (platform.civil served_attempt.now)

reads_one : reading.from_slice (as_bytes (text "{}")) ≡ Outcome.ok (obj item)
unfolding as_bytes
reads_one = refl

reads_payload : reading.from_slice (as_bytes (payload one sent_at)) ≡ Outcome.ok (obj root)
unfolding as_bytes payload rfc3339_millis padded
reads_payload = refl

pub obj-inj :
    (v : Value) (fields : Fields)
    → ◌≡◌ {A = Outcome.Outcome Text Value} (Outcome.ok (obj fields)) (Outcome.ok v)
    → v ≡ obj fields
obj-inj v fields h = ground arith

one-joined :
    (values : Items) (fields : Fields)
    → Parsed reading.from_slice one.bodies values
    → reading.from_slice (as_bytes (payload one sent_at)) ≡ Outcome.ok (obj fields)
    → get (text "batch") fields ≡ some (arr values)
unfolding get
one-joined nil fields parsed h = absurd (parsed)
one-joined (cons v nil) fields parsed h =
    let same : fields ≡ root = ground (arith, reads_payload) in
    rw (obj-inj v item (sym reads_one ∙ parsed.0)) (rw same refl)
one-joined (cons v (cons u values)) fields parsed h = absurd (parsed.1)

pub one-Formats : Formats platform reading gunzip one sent_at
one-Formats = record { whole = λ wire e. ground arith; joined = one-joined }

pub takes_one :
    (take_batch config (unix_millis (pos 5_000_000_000)) forced queue.database).0 ≡ some one
unfolding take_batch saturating_sub unix_millis millis
takes_one = refl

delivers : (send_next platform float config forced served_attempt queue).0 ≡ ok (some delivered)
unfolding send_next take_batch saturating_sub unix_millis millis of batch App.bearer
    App.strip_prefix trim source_for as_bytes check payload rfc3339_millis padded decode normalize
    ◌>>=◌ refuse_if get as_str as_object as_array ◌+ℤ◌ len any_key flatten find_header
delivers = refl

delivered-stored_example :
    (wire : List ℕ) × (platform.compress (payload one sent_at) ≡ some wire)
    × Accounted platform float config reading gunzip
        (λ s. s)
        settings
        moment
        state
        arrived
        arrived-Carried
        (request platform float config served_attempt wire)
        0
        (obj item)
unfolding item_at
delivered-stored_example =
    delivered-stored platform float config reading gunzip (λ s. s) settings moment state arrived
      arrived-Carried forced served_attempt queue one (cons (obj item) nil) 0 (obj item) one-Formats
      (λ sent. refl) takes_one delivers (reads_one, tt) refl
