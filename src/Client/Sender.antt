-- ===== src/Client/Sender.antt =====
-- rust/crates/clickman/src/sender.rs, gzip.rs and transport.rs: one send at a time, and the wait
-- after a failure. The HTTP stack of the host, the clock and the random numbers are what an
-- `Attempt` says of them.
pub mod Guard
pub mod Keeps
pub mod Drain
pub mod Threads
pub mod Ends
use clickman.Base.{
  ℕ, suc, ◌+◌, ◌^◌, ◌-◌, Bool, true, false, ◌&&◌, Option, none, some, List, [], ◌∷◌, ◌++◌, ◌==◌,
  min, if◌then◌else◌,
}
use clickman.Base.Int.{ℤ, pos, ltb_ℤ, saturating_add}
use clickman.Base.Text.{Text, text, is_blank}
use clickman.Client.Error.{Result, ok, err, compression}
use clickman.Client.Clock.{unix_millis, millis, rfc3339_millis}
use clickman.Client.Config.{Config}
use clickman.Client.Outcome.{Outcome, delivered, refused, retry, of}
use clickman.Client.Backoff.{u32_max, delay, retry_after}
use clickman.Client.Backoff.Float.{Float64}
use clickman.Client.Platform.{Platform}
use clickman.Client.Store.{Database}
use clickman.Client.Queue.{Batch, Urgency, payload, take_batch, remove}

pub data Flight : Type 0 where
  idle in_flight : Flight

pub data Backoff : Type 0 where
  clear : Backoff
  waiting : ℕ → ℤ → Backoff

pub record SenderState : Type 0 where
  pub flight : Flight
  pub backoff : Backoff

abbrev pub default_state : SenderState
default_state = record { flight = idle; backoff = clear }

pub record HttpResponse : Type 0 where
  pub status : ℕ
  pub retry_after : Option Text

-- What `HttpClient::post` comes to.
pub data Reply : Type 0 where
  response : HttpResponse → Reply
  unreachable : Text → Reply

pub record Request : Type 0 where
  pub url : Text
  pub headers : List (Text × Text)
  pub body : List ℕ

pub record Answer : Type 0 where
  pub status : ℕ
  pub retry_after : Option ℕ

abbrev pub no_response : Answer
no_response = record { status = 0; retry_after = none }

unfoldable pub answer_of : Reply → Answer
answer_of (response r) = record { status = r.status; retry_after = retry_after r.retry_after }
answer_of (unreachable message) = no_response

-- `trim_end_matches('/')`
unfoldable pub trim_slashes : Text → Text
trim_slashes [] = []
trim_slashes (c ∷ s) =
    let rest = trim_slashes s in if c == b'/' && is_blank rest then [] else c ∷ rest

unfoldable pub url : Config → Text
unfolding trim_slashes
url config = trim_slashes config.endpoint ++ text "/v1/batch"

unfoldable pub headers : Config → List (Text × Text)
headers config =
    (text "Authorization", text "Bearer " ++ config.write_key)
    ∷ (text "Content-Type", text "application/json")
    ∷ (text "Content-Encoding", text "gzip")
    ∷ []

-- `Sender::reserve`
unfoldable pub reserve_from : Flight → Backoff → ℤ → Option SenderState
reserve_from in_flight backoff now = none
reserve_from idle clear now = some (record { flight = in_flight; backoff = clear })
reserve_from idle (waiting failures until) now =
    if ltb_ℤ now until
    then none
    else some (record { flight = in_flight; backoff = waiting failures until })

unfoldable pub reserve : ℤ → SenderState → Option SenderState
unfolding reserve_from
reserve now state = reserve_from state.flight state.backoff now

-- The drop of the `FlightGuard`.
unfoldable pub land : SenderState → SenderState
land state = record state { flight = idle }

-- `failures.saturating_add(1)` on `u32`, or the first failure.
unfoldable pub failures_after : Backoff → ℕ
failures_after clear = 1
failures_after (waiting failures until) = min (failures + 1) u32_max

-- The environment of one call of `send_next`: the clock when it begins and when it backs off, the
-- random number, the reply to its request, and what other calls do to the store while it waits.
pub record Attempt (f : Float64) : Type 0 where
  pub now : ℤ
  pub later : ℤ
  pub random : f.F
  pub reply : Request → Reply
  pub meanwhile : Database → Database

pub record World : Type 0 where
  pub database : Database
  pub state : SenderState

module _ (p : Platform) (f : Float64) (config : Config) where
  -- `Sender::back_off`
  unfoldable pub back_off : Answer → Attempt f → SenderState → SenderState
  unfolding failures_after delay
  back_off answer attempt state =
      let failures = failures_after state.backoff in
      record state {
        backoff = waiting failures (
            saturating_add (unix_millis attempt.later)
              (millis (delay f failures answer.retry_after attempt.random)));
      }

  -- `Sender::settle` and `leave_queue`
  unfoldable pub settle_as : Outcome → Batch → Answer → Attempt f → World → World
  unfolding back_off
  settle_as delivered batch answer attempt w = record {
    database = remove batch w.database;
    state = record w.state { backoff = clear };
  }
  settle_as refused batch answer attempt w = record {
    database = remove batch w.database;
    state = record w.state { backoff = clear };
  }
  settle_as retry batch answer attempt w = record w { state = back_off answer attempt w.state }

  unfoldable pub settle : Batch → Answer → Attempt f → World → Outcome × World
  unfolding settle_as
  settle batch answer attempt w =
      let outcome = of answer.status in (outcome, settle_as outcome batch answer attempt w)

  -- `Sender::post`
  unfoldable pub post : Batch → Text → Attempt f → Result Answer
  unfolding url headers answer_of
  post batch sent_at attempt = elim (p.compress (payload batch sent_at)) [
    | none ↦ err compression
    | some body ↦ ok (
        answer_of
          (attempt.reply (record { url = url config; headers = headers config; body = body })))
  ]

  -- From the post to the end of `send_next`: the guard is dropped on every way out.
  unfoldable pub deliver : Batch → Attempt f → World → Result (Option Outcome) × World
  unfolding post settle land
  deliver batch attempt w = elim (post batch (rfc3339_millis (p.civil attempt.now)) attempt) [
    | err e ↦ (err e, record w { state = land w.state })
    | ok answer ↦
        let (outcome, w') =
          settle batch answer attempt (record w { database = attempt.meanwhile w.database }) in
        (ok (some outcome), record w' { state = land w'.state })
  ]

  unfoldable pub send_taken : Option Batch → Attempt f → World → Result (Option Outcome) × World
  unfolding deliver land
  send_taken none attempt w = (ok none, record w { state = land w.state })
  send_taken (some batch) attempt w = deliver batch attempt w

  -- `Sender::send_next`
  unfoldable pub send_next : Urgency → Attempt f → World → Result (Option Outcome) × World
  unfolding reserve send_taken
  send_next urgency attempt w = elim (reserve (unix_millis attempt.now) w.state) [
    | none ↦ (ok none, w)
    | some state ↦
        let (taken, database) = take_batch config (unix_millis attempt.now) urgency w.database in
        send_taken taken attempt (record { database = database; state = state })
  ]

  -- Whether the loop of `drain` goes on.
  abbrev pub goes_on : Result (Option Outcome) → Bool
  goes_on (ok (some delivered)) = true
  goes_on (ok (some refused)) = true
  goes_on _ = false

  abbrev pub drained : Result (Option Outcome) → Result (Unit {0})
  drained (err e) = err e
  drained (ok outcome) = ok tt

  -- `Sender::drain` over the attempts that it has time for; `none` is a drain that still runs when
  -- they are used up.
  unfoldable pub drain : Urgency → List (Attempt f) → World → Option (Result (Unit {0})) × World
  unfolding send_next
  drain urgency [] w = (none, w)
  drain urgency (attempt ∷ attempts) w =
      let (result, w') = send_next urgency attempt w in
      let rest = drain urgency attempts w' in
      if goes_on result then rest else (some (drained result), w')
