-- ===== src/Protocol/Tests.antt =====
-- The theorems about the protocol crate at concrete inputs.
pub mod Sensitive
use clickman.Base.{
  ℕ, ◌+◌, ◌-◌, ◌*◌, ◌/◌, ◌≤◌, min, max, leb, ◌≡◌, refl, true, false, none, some, [], ◌∷◌, length,
  arith, if◌then◌else◌,
}
use clickman.Base.Floats.{Floats, FloatsLaws}
use clickman.Base.Int.{pos, ◌+ℤ◌, ◌-ℤ◌}
use clickman.Base.Text.{Text, text, is_ascii_digit}
use clickman.Json.{Value, Fields, null, bool, str, obj, nil, cons, end, field, as_str}
use clickman.Json.Map.{get, len, any_key, map_values}
use clickman.Protocol.Outcome.{Outcome, ok, err, ◌>>=◌, refuse_if}
use clickman.Protocol.Flatten.{flatten}
use clickman.Protocol.Flatten.Leaves.{leaves, last_value, get-flatten}
use clickman.Protocol.Flatten.Shape.{IsFlat, flatten-IsFlat, flatten-flat}
use clickman.Protocol.Sanitize.{default_fragments, filtered, sensitive, sanitize, luhn}
use clickman.Protocol.Sanitize.Laws.{get-sanitize, sanitize-sanitize}
use clickman.Protocol.Batch.{
  default_limits, Reason, invalid_event, Event, Normalized, Externals, is_track, text_of,
  normalize_event, normalize_items, item_message_id,
}
use clickman.Protocol.Batch.Accepted.{TimeLaws, IsAccepted, normalize_event-IsAccepted}
use clickman.Protocol.Batch.Split.{IsSplit, normalize_items-IsSplit, normalize_items-total}

abbrev render : Value → Text
render v = text "{}"

-- Whole numbers for `f64`, as their units.
abbrev pub whole : Floats
whole = record {
  ge = λ x y. leb y x;
  add = λ x y. x + y;
  sub = λ x y. x - y;
  mul = λ x y. x * y;
  div = λ x y. x / y;
  least = λ x y. min x y;
  greatest = λ x y. max x y;
  ceil = λ x. x;
  as_secs = λ n. n;
  from_secs = λ x. some (x * 1_000_000_000);
}

mul_le : (a b r : ℕ) → a ≤ b → a * r ≤ b * r
mul_le a b r h = let parts : b ≡ a + (b - a) = omega arith in rw parts (omega arith)

abbrev pub externals : Externals
externals = record {
  from_slice = λ _. ok null;
  render = render;
  parse_uuid = λ s. some (length s);
  parse_time = λ s. some (pos (length s));
  add_time = λ a b. some (a +ℤ b);
  sub_time = λ a b. some (a -ℤ b);
  is_alphanumeric = is_ascii_digit;
  to_lowercase = λ s. s;
  is_email = λ _. false;
  floats = whole;
}

pub whole-FloatsLaws : FloatsLaws whole
whole-FloatsLaws = record {
  zero = refl;
  ge_refl = λ x h. ground arith;
  ge_trans = λ x y z h g. ground arith;
  add_ge_left = λ x y z h g i. ground arith;
  add_ge_right = λ x y z h g i. ground arith;
  mul_mono = λ m n r le h g. ground (arith, mul_le m n r le);
  mul_positive = λ n r h g. ground arith;
  least_right = λ x y h g. ground arith;
  least_positive = λ x y h g. ground arith;
  sub_positive = λ x h. ground arith;
}

externals-TimeLaws : TimeLaws externals
externals-TimeLaws = record {
  add_exact = λ a b c h. ground arith;
  sub_exact = λ a b c h. ground arith;
}

abbrev nested : Fields
nested = field (text "a") (obj (field (text "b") (bool true) end)) (field (text "c") null end)

abbrev flat : Fields
flat = field (text "a") (bool true) (field (text "c") (str (text "x")) end)

get-flatten_example :
    get (text "a.b") (flatten render nested)
    ≡ last_value (text "a.b") (leaves render nested none 1) none
get-flatten_example = get-flatten render (text "a.b") nested

abbrev pub item : Fields
item = field (text "type") (str (text "track")) (
    field (text "messageId") (str (text "id")) (
      field (text "event") (str (text "x")) (
        field (text "externalId") (str (text "u"))
          (field (text "timestamp") (str (text "now")) end))))

abbrev accepted : Event
accepted = record {
  message_id = 2;
  event = text "x";
  external_id = text "u";
  occurred_at = pos 3 +ℤ pos 0;
  properties = end;
  context = end;
}

normalize_event-IsAccepted_example :
    (is_track (text_of (get (text "type") item)) ≡ true)
    × IsAccepted externals externals-TimeLaws default_limits (pos 10) (pos 0) item accepted
unfolding normalize_event ◌>>=◌ refuse_if get as_str ◌+ℤ◌ ◌-ℤ◌ len any_key flatten sanitize
    map_values
normalize_event-IsAccepted_example =
    normalize_event-IsAccepted externals externals-TimeLaws default_limits (pos 10) [] (pos 0) end
      item accepted refl

abbrev pub rejecting : Value → Outcome Reason Event
rejecting _ = err invalid_event

abbrev two_rejected : Normalized
two_rejected = record {
  events = [];
  rejected =
      record { index = 0; message_id = none; reason = invalid_event }
      ∷ record { index = 1; message_id = none; reason = invalid_event }
      ∷ [];
}

normalize_items-IsSplit_example :
    IsSplit externals rejecting 0 (cons null (cons null nil)) two_rejected
unfolding normalize_items ◌>>=◌ item_message_id
normalize_items-IsSplit_example =
    normalize_items-IsSplit externals rejecting (cons null (cons null nil)) 0 two_rejected refl

abbrev own : Fields
own = field (text "a") (obj (field (text "c") null end)) (field (text "d") (bool true) end)
