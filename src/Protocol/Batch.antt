-- ===== src/Protocol/Batch.antt =====
-- `normalize` of rust/crates/clickman-protocol/src/batch.rs, on the types of Protocol/Data.
pub mod Accepted
pub mod Split
pub mod Handled
pub mod Panics
pub use clickman.Protocol.Data.{
  hour, day, Limits, default_limits, Reason, unsupported_type, invalid_message_id, invalid_event,
  invalid_external_id, invalid_timestamp, timestamp_out_of_range, invalid_properties,
  invalid_context, too_many_keys, Event, Rejection, Normalized, BatchError, malformed, Externals,
}
use clickman.Base.{
  ℕ, zero, suc, ◌+◌, ◌*◌, Bool, true, false, ◌&&◌, ◌||◌, not, Option, none, some, List, [], ◌∷◌,
  ◌++◌, length, any, ltb, leb, if◌then◌else◌,
}
use clickman.Base.Int.{ℤ, pos, ◌+ℤ◌, ◌-ℤ◌, ltb_ℤ}
use clickman.Base.Text.{Text, text, text_eq, is_control, is_blank}
use clickman.Base.Decimal.{decimal}
use clickman.Json.{
  Value, Items, Fields, null, bool, number, str, arr, obj, nil, cons, end, field, as_str, as_array,
  as_object,
}
use clickman.Json.Map.{get, len, any_key}
use clickman.Protocol.Outcome.{Outcome, ok, err, panic, ◌>>=◌, ok_or, or_panic, refuse_if}
use clickman.Protocol.Flatten.{flatten}
use clickman.Protocol.Merge.{deep_merge}
use clickman.Protocol.Sanitize.{sanitize}

-- `get(name).and_then(Value::as_str)`
abbrev pub text_of : Option Value → Option Text
text_of none = none
text_of (some value) = as_str value

abbrev pub then_parse {ℓ} : {A : Type ℓ} → (Text → Option A) → Option Text → Option A
then_parse parse none = none
then_parse parse (some s) = parse s

abbrev pub is_track : Option Text → Bool
is_track none = false
is_track (some s) = text_eq s (text "track")

unfoldable pub valid_text : ℕ → Text → Option Text
valid_text max_chars s =
    if ltb 0 (length s) && leb (length s) max_chars && not (any is_control s) then some s else none

unfoldable pub text_field : Fields → Text → ℕ → Option Text
unfolding valid_text
text_field item name max_chars = then_parse (valid_text max_chars) (text_of (get name item))

abbrev pub key_is_invalid : ℕ → Text → Bool
key_is_invalid max_key_chars key = is_blank key || ltb max_key_chars (length key)

unfoldable pub check_keys : Fields → ℕ → ℕ → Reason → Outcome Reason (Unit {0})
check_keys flat max_keys max_key_chars invalid = do
  u ← refuse_if (ltb max_keys (len flat)) too_many_keys
  refuse_if (any_key (key_is_invalid max_key_chars) flat) invalid

-- The `context` of the batch: an object, or none.
abbrev pub batch_context : Option Value → Outcome BatchError Fields
batch_context none = ok end
batch_context (some null) = ok end
batch_context (some (obj context)) = ok context
batch_context (some _) = err (malformed (text "context is not an object"))

-- The context of an event over that of its batch.
abbrev pub own_context : Fields → Option Value → Outcome Reason Fields
own_context batch none = ok batch
own_context batch (some null) = ok batch
own_context batch (some (obj own)) = ok (deep_merge batch own)
own_context batch (some _) = err invalid_context

unfoldable pub item_message_id : Value → Option Text
item_message_id (obj item) = text_of (get (text "messageId") item)
item_message_id _ = none

unfoldable pub count_items : Items → ℕ
count_items nil = 0
count_items (cons item items) = suc (count_items items)

-- The test of the number of events, with the text of its error.
abbrev pub check_count : ℕ → ℕ → Outcome BatchError (Unit {0})
check_count max_events n =
    refuse_if (not (ltb 0 n) || ltb max_events n)
      (malformed (text "batch must hold 1 to " ++ decimal max_events ++ text " events"))

module _ (x : Externals) where
  unfoldable pub flat_properties : Option Value → Outcome Reason Fields
  flat_properties none = ok end
  flat_properties (some null) = ok end
  flat_properties (some (obj properties)) = ok (flatten x.render properties)
  flat_properties (some _) = err invalid_properties

  -- `sanitizer.sanitize`, of a sanitizer with these fragments.
  abbrev pub clean : List Text → Fields → Fields
  clean = sanitize x.is_alphanumeric x.to_lowercase x.is_email

  -- The bounds of the time: the second is computed where the first holds.
  unfoldable pub check_time : Limits → ℤ → ℤ → Outcome Reason (Unit {0})
  check_time limits received_at occurred_at = do
    latest ← or_panic (x.add_time received_at limits.max_future)
    u ← refuse_if (ltb_ℤ latest occurred_at) timestamp_out_of_range
    earliest ← or_panic (x.sub_time received_at limits.max_event_age)
    refuse_if (ltb_ℤ occurred_at earliest) timestamp_out_of_range

  unfoldable pub normalize_fields :
      List Text → Limits → ℤ → ℤ → Fields → Fields → Outcome Reason Event
  unfolding text_field check_time check_keys flat_properties
  normalize_fields fragments limits skew received_at batch item = do
    message_id ←
        ok_or invalid_message_id (then_parse x.parse_uuid (text_of (get (text "messageId") item)))
    event ← ok_or invalid_event (text_field item (text "event") limits.max_event_chars)
    external_id ←
        ok_or invalid_external_id (text_field item (text "externalId") limits.max_external_id_chars)
    timestamp ←
        ok_or invalid_timestamp (then_parse x.parse_time (text_of (get (text "timestamp") item)))
    occurred_at ← or_panic (x.add_time timestamp skew)
    u ← check_time limits received_at occurred_at
    properties ← flat_properties (get (text "properties") item)
    v ← check_keys properties limits.max_property_keys limits.max_key_chars invalid_properties
    merged ← own_context batch (get (text "context") item)
    w ←
        check_keys (flatten x.render merged) limits.max_context_keys limits.max_key_chars
          invalid_context
    ok (record {
      message_id = message_id;
      event = event;
      external_id = external_id;
      occurred_at = occurred_at;
      properties = clean fragments properties;
      context = clean fragments (flatten x.render merged);
    })

  unfoldable pub normalize_event :
      List Text → Limits → ℤ → ℤ → Fields → Value → Outcome Reason Event
  unfolding normalize_fields
  normalize_event fragments limits skew received_at batch (obj item) = do
    u ← refuse_if (not (is_track (text_of (get (text "type") item)))) unsupported_type
    normalize_fields fragments limits skew received_at batch item
  normalize_event fragments limits skew received_at batch _ = err invalid_event

  -- What one item adds to what the later ones come to.
  abbrev pub add_item :
      ℕ → Value → Outcome Reason Event → Normalized → Outcome BatchError Normalized
  add_item index item (ok event) later = ok (record later { events = event ∷ later.events })
  add_item index item (err reason) later = ok (record later {
    rejected =
        record { index = index; message_id = item_message_id item; reason = reason }
        ∷ later.rejected;
  })
  add_item index item panic later = panic

  -- The loop over the items, from this index.
  unfoldable pub normalize_items :
      (Value → Outcome Reason Event) → ℕ → Items → Outcome BatchError Normalized
  normalize_items normalize_one index nil = ok (record { events = []; rejected = [] })
  normalize_items normalize_one index (cons item items) = do
    later ← normalize_items normalize_one (suc index) items
    add_item index item (normalize_one item) later

  abbrev pub body_value : Outcome Text Value → Outcome BatchError Value
  body_value (ok value) = ok value
  body_value (err message) = err (malformed (text "the body is not JSON: " ++ message))
  body_value panic = panic

  abbrev pub array_of : Option Value → Option Items
  array_of none = none
  array_of (some value) = as_array value

  unfoldable pub normalize : List ℕ → ℤ → List Text → Limits → Outcome BatchError Normalized
  unfolding normalize_event normalize_items count_items
  normalize body received_at fragments limits = do
    value ← body_value (x.from_slice body)
    root ← ok_or (malformed (text "the body is not a JSON object")) (as_object value)
    sent_at ←
        ok_or (malformed (text "sentAt is missing or not an RFC 3339 time"))
          (then_parse x.parse_time (text_of (get (text "sentAt") root)))
    items ←
        ok_or (malformed (text "batch is missing or not an array"))
          (array_of (get (text "batch") root))
    u ← check_count limits.max_events (count_items items)
    context ← batch_context (get (text "context") root)
    normalize_items (normalize_event fragments limits (received_at -ℤ sent_at) received_at context)
        0 items
