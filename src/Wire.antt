-- ===== src/Wire.antt =====
-- The client and the server together: what `client::Sender` of rust/crates/clickman reads of an answer
-- of rust/crates/clickman-ingest, and when its next request is let through.
mod Tests
pub mod Agree
pub mod Carriage
pub mod Delivery
pub mod Removal
pub mod Arrival
pub mod Refusal
use clickman.Base.{
  ℕ, ◌+◌, ◌*◌, ◌/◌, ◌≤◌, ◌≡◌, refl, sym, ap, ◌∙◌, inl, inr, Option, none, some, false, List, min,
  max, arith, Option-cases, Bool-cases,
}
use clickman.Base.Int.{
  ℤ, pos, negsuc, pos_part, neg_part, ◌+ℤ◌, ◌≤ℤ◌, i64_max, ltb_ℤ, saturate, saturating_add,
  +ℤ_parts,
}
use clickman.Base.Text.{Text, text}
use clickman.Base.Decimal.{decimal}
use clickman.Client.Error.{Error, ok, err, Result-cases}
use clickman.Client.Clock.{unix_millis, millis, rfc3339_millis}
use clickman.Client.Config.{Config, from_secs}
use clickman.Client.Outcome.{retry, of}
use clickman.Client.Backoff.{delay, retry_after, u64_max}
use clickman.Client.Backoff.Float.{Float64}
use clickman.Client.Backoff.Header.{retry_after-decimal}
use clickman.Client.Platform.{Platform}
use clickman.Client.Queue.{Batch, Urgency, payload}
use clickman.Client.Sender.{
  Attempt, World, HttpResponse, response, Answer, answer_of, SenderState, waiting, Request, url,
  headers, land, reserve, post, back_off, settle_as, deliver, send_taken, send_next,
}
use clickman.Ingest.App.{Response, as_secs, failing_for}

-- The header has the number in decimal.
abbrev header_of : Option ℕ → Option Text
header_of none = none
header_of (some seconds) = some (decimal seconds)

abbrev pub over_wire : Response → HttpResponse
over_wire r = record { status = r.status; retry_after = header_of r.retry_after }

-- The answer to a client that is limited.
abbrev pub limited_answer : ℕ → Answer
limited_answer s = answer_of (response (over_wire (failing_for 429 (text "rate_limited") s)))

limited-advice : (s : ℕ) → (limited_answer s).retry_after ≡ some (from_secs (min (max s 1) u64_max))
unfolding answer_of
limited-advice s = retry_after-decimal (max s 1)

module _ (p : Platform) (f : Float64) (config : Config) where
  -- The client waits from its clock on for at least the advice.
  pub record Waits (later : ℤ) (advice : ℕ) (state : SenderState) : Type 0 where
    pub failures : ℕ
    pub duration : ℕ
    pub longer : advice ≤ duration
    pub backs_off :
        state.backoff ≡ waiting failures (saturating_add (unix_millis later) (millis duration))

  -- Every request meets this answer.
  abbrev Meets : Answer → Attempt f → Type 0
  Meets answer attempt = (request : Request) → answer_of (attempt.reply request) ≡ answer

  back_off-Waits :
      (answer : Answer) (advice : ℕ) (attempt : Attempt f) (state : SenderState)
      → answer.retry_after ≡ some advice
      → Waits attempt.later advice (back_off p f config answer attempt state)
  unfolding back_off delay
  back_off-Waits answer advice attempt state e =
      rw e (record { failures = _; duration = _; longer = omega arith; backs_off = refl })

  post-Meets :
      (batch : Batch) (sent_at : Text) (answer met : Answer) (attempt : Attempt f)
      → Meets met attempt
      → post p f config batch sent_at attempt ≡ ok answer
      → answer ≡ met
  unfolding post
  post-Meets batch sent_at answer met attempt meets h =
      elim (Option-cases (p.compress (payload batch sent_at))) [
        | inl e ↦ absurd (ground arith)
        | inr (body, e) ↦
            let replied : answer
                ≡ answer_of (
                    attempt.reply
                      (record { url = url config; headers = headers config; body = body })) =
              ground arith in
            replied ∙ meets _
      ]

  land-Waits :
      (later : ℤ) (advice : ℕ) (state : SenderState)
      → Waits later advice state
      → Waits later advice (land state)
  unfolding land
  land-Waits later advice state h = record {
    failures = h.failures;
    duration = h.duration;
    longer = h.longer;
    backs_off = h.backs_off;
  }

  deliver-Waits :
      (batch : Batch) (s : ℕ) (attempt : Attempt f) (w : World)
      → Meets (limited_answer s) attempt
      → (deliver p f config batch attempt w).0 ≡ ok (some retry)
      → Waits attempt.later
          (from_secs (min (max s 1) u64_max))
          (deliver p f config batch attempt w).1.state
  unfolding deliver settle_as of answer_of
  deliver-Waits batch s attempt w meets h =
      let sent_at = rfc3339_millis (p.civil attempt.now) in
      elim (Result-cases (post p f config batch sent_at attempt)) [
        | inl (answer, e) ↦
            rw
              (
                e ∙ ap ok (post-Meets batch sent_at answer (limited_answer s) attempt meets e),
                deliver,
              )
              (land-Waits attempt.later _ _
                (back_off-Waits (limited_answer s) _ attempt w.state (limited-advice s)))
        | inr (error, e) ↦ absurd (not_sent error e)
      ]
    where
      not_sent :
          (error : Error)
          → post p f config batch (rfc3339_millis (p.civil attempt.now)) attempt ≡ err error
          → ⊥
      not_sent error e = ground arith

  send_taken-Waits :
      (taken : Option Batch) (s : ℕ) (attempt : Attempt f) (w : World)
      → Meets (limited_answer s) attempt
      → (send_taken p f config taken attempt w).0 ≡ ok (some retry)
      → Waits attempt.later
          (from_secs (min (max s 1) u64_max))
          (send_taken p f config taken attempt w).1.state
  unfolding send_taken
  send_taken-Waits none s attempt w meets h = absurd (ground arith)
  send_taken-Waits (some batch) s attempt w meets h = deliver-Waits batch s attempt w meets h

  send_next-Waits :
      (urgency : Urgency) (s : ℕ) (attempt : Attempt f) (w : World)
      → Meets (limited_answer s) attempt
      → (send_next p f config urgency attempt w).0 ≡ ok (some retry)
      → Waits attempt.later
          (from_secs (min (max s 1) u64_max))
          (send_next p f config urgency attempt w).1.state
  unfolding send_next
  send_next-Waits urgency s attempt w meets h =
      elim (Option-cases (reserve (unix_millis attempt.now) w.state)) [
        | inl e ↦ absurd (ground arith)
        | inr (state, e) ↦
            rw (e, send_next) (send_taken-Waits _ s attempt _ meets (rw (e, send_next) at h))
      ]

saturate_least :
    (now x y : ℤ) → ltb_ℤ now (saturate x) ≡ false → y ≤ℤ x → y ≤ℤ pos i64_max → y ≤ℤ now
unfolding saturate
saturate_least now (pos n) y h le fits = ground arith
saturate_least now (negsuc n) y h le fits = ground arith

saturating_later :
    (now until : ℤ) (d n : ℕ)
    → ltb_ℤ now (saturating_add until (pos d)) ≡ false
    → n ≤ d
    → until +ℤ pos n ≤ℤ pos i64_max
    → until +ℤ pos n ≤ℤ now
unfolding saturating_add
saturating_later now until d n h le fits =
    saturate_least now (until +ℤ pos d) (until +ℤ pos n) h
      (omega (arith, +ℤ_parts until (pos d), +ℤ_parts until (pos n))) fits

reserve-after :
    (now : ℤ) (failures : ℕ) (until : ℤ) (state next : SenderState)
    → state.backoff ≡ waiting failures until
    → reserve now state ≡ some next
    → ltb_ℤ now until ≡ false
unfolding reserve
reserve-after now failures until state next e h = ground arith

module _ (p : Platform) (f : Float64) (config : Config) where
  -- The end of the advice in the client's clock, which `i64` holds.
  abbrev pub advised : ℤ → ℕ → ℤ
  advised later s = unix_millis later +ℤ pos (s * 1000)

  -- A client whose batch meets `429` with the seconds that the limiter gave waits for them: where a later
  -- send goes past its wait, its clock has come at least as far from the instant of the answer on, and at
  -- least a second. Both the milliseconds and their end are within `i64`.
  pub limited-waits :
      (urgency : Urgency) (attempt : Attempt f) (w : World) (duration : ℕ) (now : ℤ)
      (next : SenderState)
      → Meets p f config (limited_answer (as_secs duration)) attempt
      → (send_next p f config urgency attempt w).0 ≡ ok (some retry)
      → reserve now (send_next p f config urgency attempt w).1.state ≡ some next
      → max (as_secs duration) 1 * 1000 ≤ i64_max
      → advised attempt.later (max (as_secs duration) 1) ≤ℤ pos i64_max
      → advised attempt.later (max (as_secs duration) 1) ≤ℤ now
  unfolding millis
  limited-waits urgency attempt w duration now next meets sent goes small fits =
      let s = as_secs duration in
      let waits = send_next-Waits p f config urgency s attempt w meets sent in
      let past = reserve-after now _ _ _ next (waits.backs_off) goes in
      saturating_later now (unix_millis attempt.later) (min (waits.duration / 1_000_000) i64_max)
        (max s 1 * 1000) past (omega (arith, waits.longer)) fits
