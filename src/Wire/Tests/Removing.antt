-- ===== src/Wire/Tests/Removing.antt =====
-- The theorem about an event that leaves the queue, at a queue of two events and the server of the tests.
use clickman.Base.{ℕ, ◌≡◌, refl, sym, ◌∙◌, some, List, [], ◌∷◌, length, ◌==◌, if◌then◌else◌, arith}
use clickman.Base.Int.{pos, saturating_sub, ◌+ℤ◌}
use clickman.Base.Text.{text, as_bytes, trim}
use clickman.Base.Decimal.{padded}
use clickman.Json.{
  Value, Items, Fields, nil, cons, obj, str, arr, end, field, as_str, as_object, as_array,
}
use clickman.Json.Map.{get, len, any_key}
use clickman.Protocol.Flatten.{flatten}
use clickman.Client.Clock.{unix_millis, millis, rfc3339_millis}
use clickman.Client.Error.{ok}
use clickman.Client.Outcome.{delivered, of}
use clickman.Client.Queue.{Batch, forced, payload, take_batch}
use clickman.Client.Sender.{Attempt, World, default_state, send_next}
use clickman.Client.Sender.Keeps.{request}
use clickman.Client.Store.{anonymous}
use clickman.Client.Tests.{row, config, platform, float}
use clickman.Client.Tests.Sending.{attempt_with}
use clickman.Protocol.Outcome
use clickman.Protocol.Outcome.{◌>>=◌, refuse_if}
use clickman.Protocol.Batch.{Externals, normalize}
use clickman.Protocol.Tests.{externals, item}
use clickman.Ingest.App
use clickman.Ingest.App.{Moment, batch}
use clickman.Ingest.Body.{decode}
use clickman.Ingest.Limiter.{check}
use clickman.Ingest.Settings.{source_for}
use clickman.Ingest.Tests.{settings, state, moment}
use clickman.Wire.Carriage.{find_header, Formats, Parsed, replied}
use clickman.Wire.Delivery.{Accounted}
use clickman.Base.{get_elem?, true, false}
use clickman.Client.Queue.{mem_seq, remove}
use clickman.Client.Queue.Order.{IsOrdered}
use clickman.Wire.Removal.{removed-Accounted}
use clickman.Wire.Tests.Delivering.{gunzip, arrived, arrived-Carried, sent_at, obj-inj}

abbrev pub pair : World
pair = record {
  database = record { events = row 1 ∷ row 2 ∷ []; sequence = 2; identity = anonymous };
  state = default_state;
}

abbrev pub both : Batch
both = record { last_seq = 2; bodies = text "{}" ∷ text "{}" ∷ [] }

abbrev items : Items
items = cons (obj item) (cons (obj item) nil)

abbrev root : Fields
root = field (text "sentAt") (str (text "now")) (field (text "batch") (arr items) end)

-- Two bytes are the body of an event, and any more are the payload.
abbrev reading : Externals
reading = record externals {
  from_slice = λ bytes. Outcome.ok (if length bytes == 2 then obj item else obj root);
}

abbrev answering : Attempt float
answering = record (attempt_with 202) {
  reply = λ sent. replied (batch reading gunzip (λ s. s) settings (arrived sent) moment state).0;
}

reads_one : reading.from_slice (as_bytes (text "{}")) ≡ Outcome.ok (obj item)
unfolding as_bytes
reads_one = refl

reads_payload : reading.from_slice (as_bytes (payload both sent_at)) ≡ Outcome.ok (obj root)
unfolding as_bytes payload rfc3339_millis padded
reads_payload = refl

both-joined :
    (values : Items) (fields : Fields)
    → Parsed reading.from_slice both.bodies values
    → reading.from_slice (as_bytes (payload both sent_at)) ≡ Outcome.ok (obj fields)
    → get (text "batch") fields ≡ some (arr values)
unfolding get
both-joined nil fields parsed h = absurd (parsed)
both-joined (cons v nil) fields parsed h = absurd (parsed.1)
both-joined (cons v (cons u nil)) fields parsed h =
    let same : fields ≡ root = ground (arith, reads_payload) in
    rw (obj-inj v item (sym reads_one ∙ parsed.0))
      (rw (obj-inj u item (sym reads_one ∙ parsed.1.0)) (rw same refl))
both-joined (cons v (cons u (cons t values))) fields parsed h = absurd (parsed.1.1)

both-Formats : Formats platform reading gunzip both sent_at
both-Formats = record { whole = λ wire e. ground arith; joined = both-joined }

pub takes_both :
    (take_batch config (unix_millis (pos 5_000_000_000)) forced pair.database).0 ≡ some both
unfolding take_batch saturating_sub unix_millis millis
takes_both = refl

delivers : (send_next platform float config forced answering pair).0 ≡ ok (some delivered)
unfolding send_next take_batch saturating_sub unix_millis millis of batch App.bearer
    App.strip_prefix trim source_for as_bytes check payload rfc3339_millis padded decode normalize
    ◌>>=◌ refuse_if get as_str as_object as_array ◌+ℤ◌ len any_key flatten find_header
delivers = refl

pair-IsOrdered : IsOrdered pair.database
pair-IsOrdered = record {
  ascending = (omega arith, (omega arith, tt));
  within = (omega arith, (omega arith, tt));
}

first_kept :
    get_elem? (take_batch config (unix_millis (pos 5_000_000_000)) forced pair.database).1.events 0
    ≡ some (row 1)
unfolding take_batch saturating_sub unix_millis millis
first_kept = refl

still_there :
    mem_seq 1 (take_batch config (unix_millis (pos 5_000_000_000)) forced pair.database).1.events
    ≡ true
unfolding take_batch saturating_sub unix_millis millis
still_there = refl

gone : mem_seq 1 (send_next platform float config forced answering pair).1.database.events ≡ false
unfolding send_next take_batch saturating_sub unix_millis millis of batch App.bearer
    App.strip_prefix trim source_for as_bytes check payload rfc3339_millis padded decode normalize
    ◌>>=◌ refuse_if get as_str as_object as_array ◌+ℤ◌ len any_key flatten find_header remove
gone = refl

removed-Accounted_example :
    (value : Value) × (reading.from_slice (as_bytes (text "{}")) ≡ Outcome.ok value)
    × (wire : List ℕ) × (platform.compress (payload both sent_at) ≡ some wire)
    × Accounted platform float config reading gunzip
        (λ s. s)
        settings
        moment
        state
        arrived
        arrived-Carried
        (request platform float config answering wire)
        0
        value
removed-Accounted_example =
    removed-Accounted platform float config reading gunzip (λ s. s) settings moment state arrived
      arrived-Carried forced answering pair both items 0 (row 1) pair-IsOrdered both-Formats
      (λ sent. refl) takes_both (reads_one, (reads_one, tt)) delivers first_kept still_there gone
