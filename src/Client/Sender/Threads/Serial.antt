-- ===== src/Client/Sender/Threads/Serial.antt =====
-- What it is for interleaved calls of `Sender` in rust/crates/clickman/src/sender.rs to be serial.
use clickman.Base.{◌≡◌, ◌⊎◌, none, some, [], ◌∷◌}
use clickman.Client.Clock.{unix_millis, rfc3339_millis}
use clickman.Client.Config.{Config}
use clickman.Client.Backoff.Float.{Float64}
use clickman.Client.Platform.{Platform}
use clickman.Client.Store.{Database}
use clickman.Client.Queue.{Urgency, payload, take_batch}
use clickman.Client.Sender.{idle, in_flight, SenderState, Attempt, World, land, reserve, send_next}
use clickman.Client.Sender.Threads.{Posted, System}

module _ (p : Platform) (f : Float64) (config : Config) where
  -- A send whose answer never settles: what is past its age is gone, and nothing else is changed.
  abbrev pub abandon : Urgency → Attempt f → World → World
  abandon urgency attempt w = elim (reserve (unix_millis attempt.now) w.state) [
    | none ↦ w
    | some state ↦ record {
      database =
          attempt.meanwhile (take_batch config (unix_millis attempt.now) urgency w.database).1;
      state = land state;
    }
  ]

  -- The whole call with what happened meanwhile.
  abbrev pub with_change : Attempt f → (Database → Database) → Attempt f
  with_change attempt change = record attempt { meanwhile = change }

  module _ (Meets : Attempt f → Type 0) (Writes : (Database → Database) → Type 0) where
    -- Any number of changes of the kind, in turn.
    pub data Composed : (Database → Database) → Type 0 where
      unchanged : Composed (λ db. db)
      changed :
          {earlier change : Database → Database}
          → Composed earlier
          → Writes change
          → Composed (λ db. change (earlier db))

    -- Whole calls, one after the other, with attempts and changes of the kind.
    pub data Serial (w : World) : World → Type 0 where
      start : Serial w w
      sends :
          {v u : World}
          → Serial w v
          → (urgency : Urgency) (attempt : Attempt f) → Meets attempt
          → (change : Database → Database) → Composed change
          → u ≡ (send_next p f config urgency (with_change attempt change) v).1
          → Serial w u
      abandons :
          {v u : World}
          → Serial w v
          → (urgency : Urgency) (attempt : Attempt f) → Meets attempt
          → (change : Database → Database) → Composed change
          → u ≡ abandon urgency (with_change attempt change) v
          → Serial w u
      changes :
          {v u : World}
          → Serial w v
          → (change : Database → Database) → Writes change
          → u ≡ record v { database = change v.database }
          → Serial w u

    -- The state in which a call waits for its answer: the call took its batch from a world that whole
    -- calls come to, and since then only the store may have changed.
    pub record Waiting (w now : World) (call : Posted f) : Type 0 where
      pub before : World
      pub serial : Serial w before
      pub urgency : Urgency
      pub meets : Meets call.attempt
      pub state : SenderState
      pub change : Database → Database
      pub composed : Composed change
      pub reserved : reserve (unix_millis call.attempt.now) before.state ≡ some state
      pub took :
          (take_batch config (unix_millis call.attempt.now) urgency before.database).0
          ≡ some call.batch
      pub compressed :
          p.compress (payload call.batch (rfc3339_millis (p.civil call.attempt.now)))
          ≡ some call.body
      pub is_now : now ≡ record {
        database =
            change (take_batch config (unix_millis call.attempt.now) urgency before.database).1;
        state = state;
      }

    abbrev pub IsSerial : World → System f → Type 0
    IsSerial w s =
        ((s.posted ≡ []) × (s.world.state.flight ≡ idle) × Serial w s.world)
        ⊎ ((call : Posted f) × (s.posted ≡ call ∷ [])
            × (s.world.state.flight ≡ in_flight)
            × Waiting w s.world call)
