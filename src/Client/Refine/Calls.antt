-- ===== src/Client/Refine/Calls.antt =====
-- The calls of `ClickMan` refine the queue that is promised.
use clickman.Base.{◌≤◌, refl, inl, inr, List, [], ◌∷◌, All}
use clickman.Base.Int.{ℤ, i64_max}
use clickman.Base.Text.{Text}
use clickman.Json.{Value}
use clickman.Client.Error.{invalid_properties, invalid_traits, invalid_context, Result-cases}
use clickman.Client.Config.{Config}
use clickman.Client.Backoff.Float.{Float64}
use clickman.Client.Platform.{Platform}
use clickman.Client.Queue.Order.{IsOrdered}
use clickman.Client.Event.{Recorder}
use clickman.Client.App.{
  ClickMan, object, with_recorder, track, identify, reset, set_traits, app_launched, set_context,
  drain_as,
}
use clickman.Client.App.Calls.{
  Call, tracks, identifies, resets, sets_traits, launches, sets_context, drains, step, run,
}
use clickman.Client.Refine.{here, Refines, Refines-trans}
use clickman.Client.Refine.Writes.{
  write-Refines, RefinesTx-record_event, RefinesTx-record_launch, RefinesTx-identify,
  RefinesTx-reset, RefinesTx-set_traits,
}
use clickman.Client.Refine.Sends.{Faithful, drain-Refines}

module _ (p : Platform) (f : Float64) (config : Config) (SendsAt : ℤ → Type 0) where
  -- While a call sends, the others are such calls.
  abbrev pub FaithfulCall : Call f → Type 0
  FaithfulCall (drains urgency attempts) = All (Faithful p f config SendsAt) attempts
  FaithfulCall _ = Unit {0}

  abbrev Kept : ClickMan → ClickMan → Type 0
  Kept c c' = Refines p f config SendsAt c.store c'.store

  module _ (bound : config.max_queue ≤ i64_max) where
    abbrev recorder : ℤ → ClickMan → Recorder
    recorder now c = record { context = c.context; now = now; max_queue = config.max_queue }

    track-Refines :
        (event : Text) (properties : Value) (now : ℤ) (c : ClickMan)
        → IsOrdered c.store
        → Kept c (track p config event properties now c).1
    unfolding track with_recorder
    track-Refines event properties now c o =
        elim (Result-cases (object properties invalid_properties)) [
          | inl (m, e) ↦
              rw (e, track)
                (write-Refines p f config SendsAt _ c.store
                  (RefinesTx-record_event p f config SendsAt (recorder now c) refl bound event m) o)
          | inr (error, e) ↦ rw (e, track) (here, o)
        ]

    set_traits-Refines :
        (changes : Value) (c : ClickMan)
        → IsOrdered c.store
        → Kept c (set_traits p config changes c).1
    unfolding set_traits
    set_traits-Refines changes c o = elim (Result-cases (object changes invalid_traits)) [
      | inl (m, e) ↦
          rw (e, set_traits)
            (write-Refines p f config SendsAt _ c.store (RefinesTx-set_traits p f config SendsAt m)
              o)
      | inr (error, e) ↦ rw (e, set_traits) (here, o)
    ]

    set_context-Refines :
        (context : Value) (c : ClickMan)
        → IsOrdered c.store
        → Kept c (set_context p config context c).1
    unfolding set_context
    set_context-Refines context c o = elim (Result-cases (object context invalid_context)) [
      | inl (host, e) ↦ rw (e, set_context) (here, o)
      | inr (error, e) ↦ rw (e, set_context) (here, o)
    ]

    step-Refines :
        (call : Call f) (c : ClickMan)
        → FaithfulCall call
        → IsOrdered c.store
        → Kept c (step p f config call c)
    unfolding step identify reset app_launched drain_as with_recorder
    step-Refines (tracks event properties now) c calm o = track-Refines event properties now c o
    step-Refines (identifies external_id) c calm o =
        write-Refines p f config SendsAt _ c.store
          (RefinesTx-identify p f config SendsAt external_id) o
    step-Refines resets c calm o =
        write-Refines p f config SendsAt _ c.store (RefinesTx-reset p f config SendsAt) o
    step-Refines (sets_traits changes) c calm o = set_traits-Refines changes c o
    step-Refines (launches version build now) c calm o =
        write-Refines p f config SendsAt _ c.store
          (RefinesTx-record_launch p f config SendsAt (recorder now c) refl bound
            (record { version = version; build = build }))
          o
    step-Refines (sets_context context) c calm o = set_context-Refines context c o
    step-Refines (drains urgency attempts) c calm o =
        drain-Refines p f config SendsAt urgency attempts
          (record { database = c.store; state = c.sender }) calm o

    -- Whatever the history of calls on a store in order, with `max_queue` within `i64`, what becomes of
    -- its queue is a chain of changes that are promised: an event is put last under the next number
    -- and the oldest go to leave at most `max_queue`; at an instant of one of the sends, those whose age at
    -- that instant is above `max_age` go; or those of a batch
    -- below its last number go, where the batch was taken from a queue at an instant of one of the sends, posted, and answered as
    -- delivered or refused. This is so of any instants that those of the sends are
    -- among, where what other calls do to the store during a send is such a chain, and the store is in order after it.
    pub run-Refines :
        (calls : List (Call f)) (c : ClickMan)
        → All FaithfulCall calls
        → IsOrdered c.store
        → Refines p f config SendsAt c.store (run p f config calls c).store
    unfolding run
    run-Refines [] c calm o = (here, o)
    run-Refines (call ∷ calls) c calm o =
        Refines-trans p f config SendsAt c.store _ _ (step-Refines call c calm.0 o)
          (run-Refines calls (step p f config call c) calm.1)
