-- ===== src/Client/App.antt =====
-- rust/crates/clickman/src/client.rs: the calls of `ClickMan` on the store, the sender and the
-- context. The configuration and what the platform does are the same in every call.
pub mod Invariant
pub mod Sends
pub mod Calls
use clickman.Base.{Bool, true, false, ℕ, Option, none, some, List}
use clickman.Base.Int.{ℤ}
use clickman.Base.Text.{Text}
use clickman.Json.{Value, Fields, null, obj, end}
use clickman.Client.Error.{
  Error, Result, ok, err, invalid_properties, invalid_traits, invalid_context,
}
use clickman.Client.Config.{Config}
use clickman.Client.Backoff.Float.{Float64}
use clickman.Client.Platform.{Platform}
use clickman.Client.Store.{Database, Tx, write, read, empty}
use clickman.Client.Queue.{due, forced}
use clickman.Client.Queue
use clickman.Client.Identity
use clickman.Client.Context.{standard}
use clickman.Client.Event.{Recorder, record_event}
use clickman.Client.Launch.{Release, record_launch}
use clickman.Client.Sender.{Attempt, World, SenderState, default_state, drain}

pub record ClickMan : Type 0 where
  pub store : Database
  pub sender : SenderState
  pub context : Fields

-- `object`: null stands for the empty object.
unfoldable pub object : Value → Error → Result Fields
object (obj m) invalid = ok m
object null invalid = ok end
object _ invalid = err invalid

-- The result of a transaction on the store of a client.
abbrev pub stored_in : {A : Type 0} → ClickMan → Result A × Database → Result A × ClickMan
stored_in c (result, db) = (result, record c { store = db })

module _ (p : Platform) (config : Config) where
  -- `open_with`, on a store that was opened
  unfoldable pub open_with : Database → ClickMan
  unfolding standard
  open_with db = record { store = db; sender = default_state; context = standard p end }

  -- `ClickMan::record`
  unfoldable pub with_recorder :
      {A : Type 0} → (Recorder → Tx A) → ℤ → ClickMan → Result A × ClickMan
  unfolding write
  with_recorder work now c = stored_in c (
      write (work (record { context = c.context; now = now; max_queue = config.max_queue }))
        c.store)

  unfoldable pub track : Text → Value → ℤ → ClickMan → Result Text × ClickMan
  unfolding object with_recorder record_event
  track event properties now c = elim (object properties invalid_properties) [
    | err e ↦ (err e, c)
    | ok m ↦ with_recorder (λ r. record_event p r event m) now c
  ]

  unfoldable pub identify : Text → ClickMan → Result (Unit {0}) × ClickMan
  unfolding write Identity.identify
  identify external_id c = stored_in c (write (Identity.identify external_id) c.store)

  unfoldable pub reset : ClickMan → Result (Unit {0}) × ClickMan
  unfolding write Identity.reset
  reset c = stored_in c (write Identity.reset c.store)

  unfoldable pub set_traits : Value → ClickMan → Result (Unit {0}) × ClickMan
  unfolding object write Identity.set_traits
  set_traits changes c = elim (object changes invalid_traits) [
    | err e ↦ (err e, c)
    | ok m ↦ stored_in c (write (Identity.set_traits p m) c.store)
  ]

  unfoldable pub app_launched : Text → Text → ℤ → ClickMan → Result (Unit {0}) × ClickMan
  unfolding with_recorder record_launch
  app_launched version build now c =
      with_recorder (λ r. record_launch p r (record { version = version; build = build })) now c

  unfoldable pub set_context : Value → ClickMan → Result (Unit {0}) × ClickMan
  unfolding object standard
  set_context context c = elim (object context invalid_context) [
    | err e ↦ (err e, c)
    | ok host ↦ (ok tt, record c { context = standard p host })
  ]

  module _ (f : Float64) where
    -- The world of the sender, put back into the client; `none` is a drain that still runs.
    unfoldable pub drain_as :
        Queue.Urgency → List (Attempt f) → ClickMan → Option (Result (Unit {0})) × ClickMan
    unfolding drain
    drain_as urgency attempts c =
        let (result, w) =
          drain p f config urgency attempts (record { database = c.store; state = c.sender }) in
        (result, record c { store = w.database; sender = w.state })

    unfoldable pub send_due : List (Attempt f) → ClickMan → Option (Result (Unit {0})) × ClickMan
    unfolding drain_as
    send_due = drain_as due

    unfoldable pub flush : List (Attempt f) → ClickMan → Option (Result (Unit {0})) × ClickMan
    unfolding drain_as
    flush = drain_as forced

unfoldable pub pending : ClickMan → ℕ
unfolding Queue.pending
pending c = Queue.pending c.store
