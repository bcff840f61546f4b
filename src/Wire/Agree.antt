-- ===== src/Wire/Agree.antt =====
-- The event that the client records, `body` of rust/crates/clickman/src/event.rs, as the server normalizes
-- it, `normalize_event` of rust/crates/clickman-protocol/src/batch.rs.
use clickman.Base.{ℕ, ◌≡◌, refl, ◌⊎◌, inl, inr, Bool, true, false, Option, none, some, List, arith}
use clickman.Base.Int.{ℤ}
use clickman.Base.Text.{Text, text}
use clickman.Json.{Value, Fields, obj, end, str, as_str}
use clickman.Json.Map.{get}
use clickman.Client.Clock.{rfc3339_millis}
use clickman.Client.Platform.{Platform}
use clickman.Client.Identity.{Actor, is_valid_text, max_external_id_chars}
use clickman.Client.Context.{with_traits}
use clickman.Client.Event.{Recorder, max_event_chars, event_body}
use clickman.Protocol.Outcome.{Outcome, ok, err, panic, ◌>>=◌, ok_or, or_panic, refuse_if}
use clickman.Protocol.Batch.{
  Externals, Event, Reason, unsupported_type, timestamp_out_of_range, invalid_properties,
  invalid_context, too_many_keys, default_limits, Limits, then_parse, text_of, check_keys,
  check_time, own_context, flat_properties, text_field, normalize_fields, normalize_event,
}

-- A value with a property, an error of these, or a panic.
unfoldable pub Within {ℓ} :
    {A : Type ℓ} → (Reason → Type 0) → (A → Type 0) → Outcome Reason A → Type 0
Within R P (ok a) = P a
Within R P (err reason) = R reason
Within R P panic = Unit

Within-bind {ℓ κ} :
    {A : Type ℓ} {B : Type κ} (R : Reason → Type 0) (Q : A → Type 0) (P : B → Type 0)
    (o : Outcome Reason A) (f : A → Outcome Reason B)
    → Within R Q o
    → ((a : A) → Q a → Within R P (f a))
    → Within R P (o >>= f)
unfolding ◌>>=◌ Within
Within-bind R Q P (ok a) f h g = g a h
Within-bind R Q P (err reason) f h g = h
Within-bind R Q P panic f h g = tt

Anything {ℓ} : {A : Type ℓ} → A → Type 0
Anything a = Unit

refuse_if-Within :
    (R : Reason → Type 0) (test : Bool) (reason : Reason)
    → R reason
    → Within R Anything (refuse_if test reason)
unfolding refuse_if Anything Within
refuse_if-Within R true reason h = h
refuse_if-Within R false reason h = tt

or_panic-Within {ℓ} :
    {A : Type ℓ} (R : Reason → Type 0) (o : Option A) → Within R Anything (or_panic o)
unfolding Anything Within
or_panic-Within R (some a) = tt
or_panic-Within R none = tt

-- What may be wrong with an event of the client.
abbrev pub Late : Reason → Type 0
Late reason =
    (reason ≡ timestamp_out_of_range)
    ⊎ (reason ≡ too_many_keys)
    ⊎ (reason ≡ invalid_properties)
    ⊎ (reason ≡ invalid_context)

ok_or-Within :
    {A : Type 0} (R : Reason → Type 0) (reason : Reason) (o : Option A) (a : A)
    → o ≡ some a
    → Within R (λ b. b ≡ a) (ok_or reason o)
unfolding Within
ok_or-Within R reason (some b) a h = ground arith
ok_or-Within R reason none a h = absurd (ground arith)

check_keys-Within :
    (flat : Fields) (n k : ℕ) (reason : Reason)
    → Late reason
    → Within Late Anything (check_keys flat n k reason)
unfolding check_keys
check_keys-Within flat n k reason h =
    Within-bind Late Anything Anything _ _ (refuse_if-Within Late _ too_many_keys (inr (inl refl)))
      (λ u _. refuse_if-Within Late _ reason h)

-- The client and the server ask the same of a text.
text_field-valid :
    (item : Fields) (name s : Text) (max_chars : ℕ)
    → get name item ≡ some (str s)
    → is_valid_text s max_chars ≡ true
    → text_field item name max_chars ≡ some s
unfolding text_field is_valid_text as_str
text_field-valid item name s max_chars e h = rw e (ground arith)

members : Value → Fields
members (obj m) = m
members _ = end

refuse_if-passes :
    (R : Reason → Type 0) (test : Bool) (reason : Reason)
    → test ≡ false
    → Within R Anything (refuse_if test reason)
unfolding refuse_if Within Anything
refuse_if-passes R true reason h = absurd (ground arith)
refuse_if-passes R false reason h = tt

module _ (x : Externals) where
  check_time-Within :
      (limits : Limits) (received_at occurred_at : ℤ)
      → Within Late Anything (check_time x limits received_at occurred_at)
  unfolding check_time
  check_time-Within limits received_at occurred_at =
      Within-bind Late Anything Anything _ _ (or_panic-Within Late _) (λ latest _.
        Within-bind Late Anything Anything _ _
          (refuse_if-Within Late _ timestamp_out_of_range (inl refl))
          (λ u _.
            Within-bind Late Anything Anything _ _ (or_panic-Within Late _)
              (λ earliest _. refuse_if-Within Late _ timestamp_out_of_range (inl refl))))

  flat_properties-Within :
      (properties : Fields) → Within Late Anything (flat_properties x (some (obj properties)))
  unfolding flat_properties Within Anything
  flat_properties-Within properties = tt

  own_context-Within :
      (batch own : Fields) → Within Late Anything (own_context batch (some (obj own)))
  unfolding Within Anything
  own_context-Within batch own = tt

  -- The ids, the name and the actor of an event.
  abbrev pub Named : ℕ → Text → Text → Event → Type 0
  Named id event external_id e =
      (e.message_id ≡ id) × (e.event ≡ event) × (e.external_id ≡ external_id)

  named :
      (id : ℕ) (event external_id : Text) (e : Event)
      → Named id event external_id e
      → Within Late (Named id event external_id) (ok e)
  unfolding Within
  named id event external_id e h = h

  fields-Within :
      (fragments : List Text) (limits : Limits) (skew received_at : ℤ)
      (batch item properties own : Fields) (id : ℕ) (event external_id : Text) (timestamp : ℤ)
      → then_parse x.parse_uuid (text_of (get (text "messageId") item)) ≡ some id
      → text_field item (text "event") limits.max_event_chars ≡ some event
      → text_field item (text "externalId") limits.max_external_id_chars ≡ some external_id
      → then_parse x.parse_time (text_of (get (text "timestamp") item)) ≡ some timestamp
      → get (text "properties") item ≡ some (obj properties)
      → get (text "context") item ≡ some (obj own)
      → Within Late
          (Named id event external_id)
          (normalize_fields x fragments limits skew received_at batch item)
  unfolding normalize_fields
  fields-Within fragments limits skew received_at batch item properties own id event external_id
        timestamp e₁ e₂ e₃ e₄ e₅ e₆ =
      let P = Named id event external_id in
      Within-bind Late (λ b. b ≡ id) P _ _ (ok_or-Within Late _ _ id e₁)
        (λ a₁ h₁.
          Within-bind Late (λ b. b ≡ event) P _ _ (ok_or-Within Late _ _ event e₂)
            (λ a₂ h₂.
              Within-bind Late (λ b. b ≡ external_id) P _ _ (ok_or-Within Late _ _ external_id e₃)
                (λ a₃ h₃.
                  Within-bind Late (λ b. b ≡ timestamp) P _ _ (ok_or-Within Late _ _ timestamp e₄)
                    (λ a₄ h₄.
                      Within-bind Late Anything P _ _ (or_panic-Within Late _) (λ occurred_at _.
                        Within-bind Late Anything P _ _
                          (check_time-Within limits received_at occurred_at)
                          (λ u _.
                            Within-bind Late Anything P _ _
                              (rw e₅ (flat_properties-Within properties))
                              (λ flat _.
                                Within-bind Late Anything P _ _
                                  (check_keys-Within flat _ _ invalid_properties
                                    (inr (inr (inl refl))))
                                  (λ v _.
                                    Within-bind Late Anything P _ _
                                      (rw e₆ (own_context-Within batch own))
                                      (λ merged _.
                                        Within-bind Late Anything P _ _
                                          (check_keys-Within _ _ _ invalid_context
                                            (inr (inr (inr refl))))
                                          (λ w _.
                                            named id event external_id _ (h₁, h₂, h₃)))))))))))

  -- An event that a client records with a name and for an actor that it takes as valid is never refused by
  -- the server for them, nor for its type, its id or the form of its time, where its id and its time read
  -- back: it is accepted under its id, name and actor, or it is out of the range of times or has too many
  -- keys or a bad one, or a sum or a difference of times panics. This is so with the limits of both crates.
  pub recorded-understood :
      (p : Platform) (r : Recorder) (actor : Actor) (message_id event : Text) (properties : Fields)
      (fragments : List Text) (skew received_at : ℤ) (batch : Fields) (id : ℕ) (timestamp : ℤ)
      → is_valid_text event max_event_chars ≡ true
      → is_valid_text actor.external_id max_external_id_chars ≡ true
      → x.parse_uuid message_id ≡ some id
      → x.parse_time (rfc3339_millis (p.civil r.now)) ≡ some timestamp
      → Within Late (Named id event actor.external_id) (
          normalize_event x fragments default_limits skew received_at batch
            (event_body p r actor message_id event properties))
  unfolding normalize_event event_body members get as_str with_traits
  recorded-understood p r actor message_id event properties fragments skew received_at batch id
        timestamp named_well actor_well read_id read_time =
      let item = members (event_body p r actor message_id event properties) in
      Within-bind Late Anything (Named id event actor.external_id) _ _
        (refuse_if-passes Late _ unsupported_type refl)
        (λ u _.
          fields-Within fragments default_limits skew received_at batch item properties
            (with_traits r.context actor.traits) id event actor.external_id timestamp read_id
            (text_field-valid item (text "event") event max_event_chars refl named_well)
            (text_field-valid item (text "externalId") actor.external_id max_external_id_chars refl
              actor_well)
            read_time refl refl)
