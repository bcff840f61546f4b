-- ===== src/Client/Tests/Refining.antt =====
-- The theorems about what the queue promises, at the test data.
use mathlib.Core.List.{Memᴰ}
use clickman.Base.{◌<◌, ◌⊎◌, All, arith, ◌≡◌, refl}
use clickman.Base.Int.{ℤ}
use clickman.Client.Clock.{unix_millis}
use clickman.Client.Store.{Row}
use clickman.Client.App.Calls.{run}
use clickman.Client.Refine.{here, Refines}
use clickman.Client.Refine.Sends.{Faithful}
use clickman.Client.Refine.Calls.{FaithfulCall, run-Refines}
use clickman.Client.Refine.Unaltered.{run-unaltered}
use clickman.Client.Tests.{store, store-IsOrdered, config, platform, float}
use clickman.Client.Tests.Sending.{attempt_with, client, history}

-- The instant of the sends.
abbrev Sending : ℤ → Type 0
Sending now = now ≡ unix_millis (attempt_with 202).now

quiet-Faithful : Faithful platform float config Sending (attempt_with 202)
quiet-Faithful = record { timed = refl; at = λ db o. (here, o) }

history-FaithfulCall : All (FaithfulCall platform float config Sending) history
history-FaithfulCall = (tt, (tt, ((quiet-Faithful, tt), tt)))

run-Refines_example :
    Refines platform float config Sending store (run platform float config history client).store
run-Refines_example =
    run-Refines platform float config Sending (omega arith) history client history-FaithfulCall
      store-IsOrdered

run-unaltered_example :
    All
      (λ (row : Row). (3 < row.seq) ⊎ Memᴰ row store.events)
      (run platform float config history client).store.events
run-unaltered_example =
    run-unaltered platform float config Sending (omega arith) history client history-FaithfulCall
      store-IsOrdered
