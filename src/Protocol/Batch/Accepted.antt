-- ===== src/Protocol/Batch/Accepted.antt =====
-- What an event that the server accepts comes with.
use clickman.Base.{
  ℕ, ◌≤◌, ◌<◌, ◌≡◌, sym, subst, true, false, not, Option, none, some, List, length, any, ltb, arith,
}
use clickman.Base.Int.{ℤ, ◌+ℤ◌, ◌-ℤ◌, ◌≤ℤ◌, ltb_ℤ}
use clickman.Base.Text.{Text, text, is_control}
use clickman.Json.{Value, Fields, null, str, obj, end, as_str}
use clickman.Json.Map.{get, len, any_key}
use clickman.Protocol.Outcome.{Outcome, ok, ok_or-ok, or_panic-ok, refuse_if-ok, with-ok, ok-inj}
use clickman.Protocol.Flatten.{flatten}
use clickman.Protocol.Flatten.Shape.{IsFlat, flatten-IsFlat}
use clickman.Protocol.Sanitize.{sanitize}
use clickman.Protocol.Sanitize.Laws.{len-map_values, any_key-map_values, sanitize-IsFlat}
use clickman.Protocol.Batch.{
  Limits, Reason, Event, Externals, text_of, then_parse, valid_text, text_field, key_is_invalid,
  check_keys, check_time, flat_properties, is_track, normalize_fields, normalize_event,
}

-- A text that a field of an event may hold.
abbrev pub IsText : ℕ → Text → Type 0
IsText max_chars s = (0 < length s) × (length s ≤ max_chars) × (any is_control s ≡ false)

-- A map that an event may come with: flat, and its keys as many and as long as they may be.
abbrev pub IsBounded : ℕ → ℕ → Fields → Type 0
IsBounded max_keys max_key_chars m =
    IsFlat m × (len m ≤ max_keys) × (any_key (key_is_invalid max_key_chars) m ≡ false)

valid_text-IsText : (n : ℕ) (s t : Text) → valid_text n s ≡ some t → IsText n t
unfolding valid_text
valid_text-IsText n s t h = ground arith

text_field-IsText :
    (item : Fields) (name : Text) (n : ℕ) (t : Text) → text_field item name n ≡ some t → IsText n t
unfolding text_field
text_field-IsText item name n t h = go (text_of (get name item)) h
  where
    go : (found : Option Text) → then_parse (valid_text n) found ≡ some t → IsText n t
    go none e = absurd (ground arith)
    go (some s) e = valid_text-IsText n s t e

text_field-str :
    (item : Fields) (name : Text) (n : ℕ) (t : Text)
    → text_field item name n ≡ some t
    → get name item ≡ some (str t)
unfolding text_field valid_text as_str
text_field-str item name n t h = go (get name item) h
  where
    go :
        (found : Option Value)
        → then_parse (valid_text n) (text_of found) ≡ some t
        → found ≡ some (str t)
    go none e = absurd (ground arith)
    go (some (str s)) e = ground arith
    go (some _) e = absurd (ground arith)

check_keys-ok :
    (flat : Fields) (max_keys max_key_chars : ℕ) (invalid : Reason)
    → check_keys flat max_keys max_key_chars invalid ≡ ok tt
    → (len flat ≤ max_keys) × (any_key (key_is_invalid max_key_chars) flat ≡ false)
unfolding check_keys
check_keys-ok flat max_keys max_key_chars invalid h = with-ok _ _ _ h (λ u few valid.
    let fits = refuse_if-ok (ltb max_keys (len flat)) _ _ few in
    (ground arith, refuse_if-ok _ _ _ valid))

check_keys-IsBounded :
    (max_keys max_key_chars : ℕ) (invalid : Reason) (flat : Fields)
    → IsFlat flat
    → check_keys flat max_keys max_key_chars invalid ≡ ok tt
    → IsBounded max_keys max_key_chars flat
check_keys-IsBounded max_keys max_key_chars invalid flat shape h =
    let (few, valid) = check_keys-ok flat max_keys max_key_chars invalid h in (shape, few, valid)

ok-IsFlat : (n m : Fields) → IsFlat n → ◌≡◌ {A = Outcome Reason Fields} (ok n) (ok m) → IsFlat m
ok-IsFlat n m f h = subst IsFlat (ground arith) f

module _ (x : Externals) where
  flat_properties-IsFlat :
      (found : Option Value) (m : Fields) → flat_properties x found ≡ ok m → IsFlat m
  unfolding flat_properties
  flat_properties-IsFlat none m h = ok-IsFlat end m (tt, tt) h
  flat_properties-IsFlat (some null) m h = ok-IsFlat end m (tt, tt) h
  flat_properties-IsFlat (some (obj properties)) m h =
      ok-IsFlat _ m (flatten-IsFlat x.render properties) h
  flat_properties-IsFlat (some _) m h = absurd (ground arith)

  sanitize-IsBounded :
      (fragments : List Text) (max_keys max_key_chars : ℕ) (m : Fields)
      → IsBounded max_keys max_key_chars m
      → IsBounded max_keys max_key_chars
          (sanitize x.is_alphanumeric x.to_lowercase x.is_email fragments m)
  unfolding sanitize
  sanitize-IsBounded fragments max_keys max_key_chars m (flat, few, valid) = (
    sanitize-IsFlat x.is_alphanumeric x.to_lowercase x.is_email fragments m flat,
    rw (len-map_values _ m) few,
    rw (any_key-map_values _ (key_is_invalid max_key_chars) m) valid,
  )

  -- Times and durations add and subtract as integers, where they have a sum or a difference.
  pub record TimeLaws : Type 0 where
    pub add_exact : (a b c : ℤ) → x.add_time a b ≡ some c → c ≡ a +ℤ b
    pub sub_exact : (a b c : ℤ) → x.sub_time a b ≡ some c → c ≡ a -ℤ b

  module _ (laws : TimeLaws) (limits : Limits) (received_at : ℤ) where
    check_time-ok :
        (occurred_at : ℤ)
        → check_time x limits received_at occurred_at ≡ ok tt
        → (received_at -ℤ limits.max_event_age ≤ℤ occurred_at)
          × (occurred_at ≤ℤ received_at +ℤ limits.max_future)
    unfolding check_time
    check_time-ok occurred_at h = with-ok _ _ _ h (λ latest e h1. with-ok _ _ _ h1 (λ u early h2.
        with-ok _ _ _ h2 (λ earliest d late.
          let before = refuse_if-ok (ltb_ℤ latest occurred_at) _ _ early in
          let since = refuse_if-ok (ltb_ℤ occurred_at earliest) _ _ late in
          let l = laws.add_exact received_at limits.max_future latest (or_panic-ok _ _ e) in
          let r = laws.sub_exact received_at limits.max_event_age earliest (or_panic-ok _ _ d) in
          (rw (sym r) (ground arith), rw (sym l) (ground arith)))))

    -- What is asked of an event of a batch with this skew.
    abbrev pub IsAccepted : ℤ → Fields → Event → Type 0
    IsAccepted skew item event =
        ((then_parse x.parse_uuid (text_of (get (text "messageId") item))) ≡ some event.message_id)
        × (get (text "event") item ≡ some (str event.event))
        × IsText limits.max_event_chars event.event
        × (get (text "externalId") item ≡ some (str event.external_id))
        × IsText limits.max_external_id_chars event.external_id
        × (timestamp : ℤ) × (then_parse x.parse_time (text_of (get (text "timestamp") item))
            ≡ some timestamp)
        × (event.occurred_at ≡ timestamp +ℤ skew)
        × (received_at -ℤ limits.max_event_age ≤ℤ event.occurred_at)
        × (event.occurred_at ≤ℤ received_at +ℤ limits.max_future)
        × IsBounded limits.max_property_keys limits.max_key_chars event.properties
        × IsBounded limits.max_context_keys limits.max_key_chars event.context

    normalize_fields-IsAccepted :
        (fragments : List Text) (skew : ℤ) (batch item : Fields) (event : Event)
        → normalize_fields x fragments limits skew received_at batch item ≡ ok event
        → IsAccepted skew item event
    unfolding normalize_fields
    normalize_fields-IsAccepted fragments skew batch item event h =
        with-ok _ _ _ h (λ message_id id_ok h1. with-ok _ _ _ h1 (λ name name_ok h2.
          with-ok _ _ _ h2 (λ external_id external_ok h3.
            with-ok _ _ _ h3 (λ timestamp timestamp_ok h4.
              with-ok _ _ _ h4 (λ occurred_at occurred_ok h5. with-ok _ _ _ h5 (λ u time_ok h6.
                with-ok _ _ _ h6 (λ properties properties_ok h7. with-ok _ _ _ h7 (λ v keys_ok h8.
                  with-ok _ _ _ h8 (λ merged merged_ok h9. with-ok _ _ _ h9 (λ w context_ok last.
                    subst (IsAccepted skew item) (ok-inj _ event last) (
                      let named = ok_or-ok _ _ name name_ok in
                      let external = ok_or-ok _ _ external_id external_ok in
                      (
                        ok_or-ok _ _ message_id id_ok,
                        text_field-str item (text "event") _ name named,
                        text_field-IsText item (text "event") _ name named,
                        text_field-str item (text "externalId") _ external_id external,
                        text_field-IsText item (text "externalId") _ external_id external,
                        timestamp,
                        ok_or-ok _ _ timestamp timestamp_ok,
                        laws.add_exact timestamp skew occurred_at (or_panic-ok _ _ occurred_ok),
                        (check_time-ok occurred_at time_ok).0,
                        (check_time-ok occurred_at time_ok).1,
                        sanitize-IsBounded fragments _ _ properties (
                            check_keys-IsBounded _ _ _ properties
                              (flat_properties-IsFlat _ properties properties_ok) keys_ok),
                        sanitize-IsBounded fragments _ _ (flatten x.render merged) (
                            check_keys-IsBounded _ _ _ (flatten x.render merged)
                              (flatten-IsFlat x.render merged) context_ok),
                      ))))))))))))

    -- An event that is accepted is one of type `track`; its fields are the item's and within their
    -- limits; its time is the item's, moved by the skew, and neither too old nor too far ahead; and
    -- its properties and its context are flat, with no more keys and no longer ones than allowed.
    pub normalize_event-IsAccepted :
        (fragments : List Text) (skew : ℤ) (batch item : Fields) (event : Event)
        → normalize_event x fragments limits skew received_at batch (obj item) ≡ ok event
        → (is_track (text_of (get (text "type") item)) ≡ true) × IsAccepted skew item event
    unfolding normalize_event
    normalize_event-IsAccepted fragments skew batch item event h =
        with-ok _ _ _ h (λ u tracked fields.
          let track =
            refuse_if-ok (not (is_track (text_of (get (text "type") item)))) _ _ tracked in
          (ground arith, normalize_fields-IsAccepted fragments skew batch item event fields))
