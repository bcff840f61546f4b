-- ===== src/Client/App/Calls.antt =====
-- Histories of calls of `ClickMan`, and the invariant of the store along each of them.
use clickman.Base.{◌≤◌, inl, inr, List, [], ◌∷◌, All, arith}
use clickman.Base.Int.{ℤ, i64_max}
use clickman.Base.Text.{Text}
use clickman.Json.{Value, Fields}
use clickman.Client.Error.{invalid_properties, invalid_traits, invalid_context, Result-cases}
use clickman.Client.Config.{Config}
use clickman.Client.Backoff.Float.{Float64}
use clickman.Client.Platform.{Platform}
use clickman.Client.Store.{Tx, write}
use clickman.Client.Queue.{Urgency}
use clickman.Client.Identity
use clickman.Client.Sender.{Attempt}
use clickman.Client.App.{
  ClickMan, object, stored_in, with_recorder, track, identify, reset, set_traits, app_launched,
  set_context, drain_as,
}
use clickman.Client.App.Invariant.{
  Inv, Keeps, same_queue-Inv, Keeps-record_event, Keeps-record_launch,
}
use clickman.Client.App.Sends.{Calm, drain-Inv}

-- A call with its arguments and what the environment gives it.
pub data Call (f : Float64) : Type 0 where
  tracks : Text → Value → ℤ → Call f
  identifies : Text → Call f
  resets : Call f
  sets_traits : Value → Call f
  launches : Text → Text → ℤ → Call f
  sets_context : Value → Call f
  drains : Urgency → List (Attempt f) → Call f

module _ (p : Platform) (f : Float64) (config : Config) where
  -- The client after a call.
  unfoldable pub step : Call f → ClickMan → ClickMan
  step (tracks event properties now) c = (track p config event properties now c).1
  step (identifies external_id) c = (identify p config external_id c).1
  step resets c = (reset p config c).1
  step (sets_traits changes) c = (set_traits p config changes c).1
  step (launches version build now) c = (app_launched p config version build now c).1
  step (sets_context context) c = (set_context p config context c).1
  step (drains urgency attempts) c = (drain_as p config f urgency attempts c).1

  unfoldable pub run : List (Call f) → ClickMan → ClickMan
  unfolding step
  run [] c = c
  run (call ∷ calls) c = run calls (step call c)

  -- While a call sends, what the others do keeps the invariant.
  abbrev pub CalmCall : Call f → Type 0
  CalmCall (drains urgency attempts) = All (Calm p f config) attempts
  CalmCall _ = Unit {0}

  abbrev pub AppInv : ClickMan → Type 0
  AppInv c = Inv config.max_queue c.store

  write-Inv :
      {A : Type 0} (work : Tx A) (c : ClickMan)
      → Keeps config.max_queue work
      → AppInv c
      → AppInv (stored_in c (write work c.store)).1
  unfolding write
  write-Inv work c k v = elim (Result-cases (work c.store)) [
    | inl ((a, db), e) ↦ rw (e, write) (k.at c.store db a v e)
    | inr (error, e) ↦ rw (e, write) v
  ]

  Keeps-identify : (external_id : Text) → Keeps config.max_queue (Identity.identify external_id)
  unfolding Identity.identify
  Keeps-identify external_id = record {
    at = λ db db' a v h. same_queue-Inv config.max_queue db db' (ground arith) (ground arith) v;
  }

  Keeps-reset : Keeps config.max_queue Identity.reset
  unfolding Identity.reset
  Keeps-reset = record {
    at = λ db db' a v h. same_queue-Inv config.max_queue db db' (ground arith) (ground arith) v;
  }

  Keeps-set_traits : (changes : Fields) → Keeps config.max_queue (Identity.set_traits p changes)
  unfolding Identity.set_traits
  Keeps-set_traits changes = record {
    at = λ db db' a v h. same_queue-Inv config.max_queue db db' (ground arith) (ground arith) v;
  }

  module _ (bound : config.max_queue ≤ i64_max) where
    track-Inv :
        (event : Text) (properties : Value) (now : ℤ) (c : ClickMan)
        → AppInv c
        → AppInv (track p config event properties now c).1
    unfolding track with_recorder
    track-Inv event properties now c v =
        elim (Result-cases (object properties invalid_properties)) [
          | inl (m, e) ↦
              rw (e, track)
                (write-Inv _ c
                  (Keeps-record_event p
                    (record { context = c.context; now = now; max_queue = config.max_queue }) bound
                    event m)
                  v)
          | inr (error, e) ↦ rw (e, track) v
        ]

    set_traits-Inv :
        (changes : Value) (c : ClickMan) → AppInv c → AppInv (set_traits p config changes c).1
    unfolding set_traits
    set_traits-Inv changes c v = elim (Result-cases (object changes invalid_traits)) [
      | inl (m, e) ↦ rw (e, set_traits) (write-Inv _ c (Keeps-set_traits m) v)
      | inr (error, e) ↦ rw (e, set_traits) v
    ]

    set_context-Inv :
        (context : Value) (c : ClickMan) → AppInv c → AppInv (set_context p config context c).1
    unfolding set_context
    set_context-Inv context c v = elim (Result-cases (object context invalid_context)) [
      | inl (host, e) ↦ rw (e, set_context) v
      | inr (error, e) ↦ rw (e, set_context) v
    ]

    -- Every call keeps the queue in order and within `max_queue`.
    step-Inv : (call : Call f) (c : ClickMan) → CalmCall call → AppInv c → AppInv (step call c)
    unfolding step identify reset app_launched drain_as with_recorder
    step-Inv (tracks event properties now) c calm v = track-Inv event properties now c v
    step-Inv (identifies external_id) c calm v = write-Inv _ c (Keeps-identify external_id) v
    step-Inv resets c calm v = write-Inv _ c Keeps-reset v
    step-Inv (sets_traits changes) c calm v = set_traits-Inv changes c v
    step-Inv (launches version build now) c calm v =
        write-Inv _ c
          (Keeps-record_launch p
            (record { context = c.context; now = now; max_queue = config.max_queue }) bound
            (record { version = version; build = build }))
          v
    step-Inv (sets_context context) c calm v = set_context-Inv context c v
    step-Inv (drains urgency attempts) c calm v =
        drain-Inv p f config urgency attempts (record { database = c.store; state = c.sender }) calm
          v

    -- Whatever the history of calls on a store that is in order and holds at most `max_queue`
    -- events, it is in order and holds at most `max_queue` events after it, where `max_queue` is within
    -- `i64` and what other calls do to the store during a send keeps this too.
    pub run-Inv :
        (calls : List (Call f)) (c : ClickMan)
        → All CalmCall calls
        → AppInv c
        → AppInv (run calls c)
    unfolding run
    run-Inv [] c calm v = v
    run-Inv (call ∷ calls) c calm v = run-Inv calls (step call c) calm.1 (step-Inv call c calm.0 v)
