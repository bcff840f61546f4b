-- ===== src/Client/Tests/Sending.antt =====
-- The theorems about sending and about whole histories, at the test data.
use mathlib.Core.List.Memᴰ.{head, tail}
use clickman.Client.Config.{from_millis}
use clickman.Client.Backoff.{delay}
use clickman.Client.Backoff.Bounds.{doubling, delay_bounds}
use clickman.Base.{
  ◌≤◌, ◌*◌, max, ℕ, ◌<◌, ◌≡◌, refl, ◌⊎◌, Option, none, some, List, [], ◌∷◌, keep, arith,
}
use clickman.Base.Int.{pos, saturating_sub, leb_ℤ}
use clickman.Base.Text.{Text, text}
use clickman.Json.{obj, end}
use clickman.Client.Clock.{millis, unix_millis}
use clickman.Client.Error.{Result}
use clickman.Client.Outcome.{of}
use clickman.Client.Queue.{forced, last, take_batch}
use clickman.Client.Sender.{Attempt, World, response, default_state, send_next, drain, answer_of}
use clickman.Client.Sender.Keeps.{send_next_stays}
use clickman.Client.Sender.Ends.{Fails, drain_ends}
use clickman.Client.Sender.Drain.{Serves, Holds, ready, drain_never_ends}
use clickman.Client.App.{ClickMan}
use clickman.Client.App.Calls.{Call, tracks, resets, drains, run, run-Inv}
use clickman.Client.App.Invariant.{Inv}
use clickman.Client.Tests.{row, store, store-IsOrdered, config, platform, float, float_laws}

-- Attempts that meet a status, while nothing else happens.
abbrev pub attempt_with : ℕ → Attempt float
attempt_with status = record {
  now = pos 5_000_000_000;
  later = pos 5_000_000_000;
  random = 5;
  reply = λ _. response (record { status = status; retry_after = none });
  meanwhile = λ db. db;
}

abbrev pub world : World
world = record { database = store; state = default_state }

send_next_stays_example :
    ((send_next platform float config forced (attempt_with 503) world).1.database ≡ store)
    ⊎ ((send_next platform float config forced (attempt_with 503) world).1.database ≡ record store {
      events =
          keep
            (λ row.
              leb_ℤ
                (saturating_sub (unix_millis (pos 5_000_000_000)) (millis config.max_age))
                row.created_at)
            store.events;
    })
unfolding send_next take_batch saturating_sub unix_millis millis of
send_next_stays_example =
    send_next_stays platform float config (attempt_with 503) forced world refl refl

compresses : (s : Text) → (b : List ℕ) × (platform.compress s ≡ some b)
compresses s = (s, refl)

sends_some : 0 < config.max_batch_events
sends_some = omega arith

attempt-Serves : Serves platform float config compresses sends_some (row 3) (attempt_with 202)
unfolding of answer_of saturating_sub millis unix_millis
attempt-Serves = record { success = λ _. refl; quiet = λ _. refl; fresh = refl }

store-Holds : Holds platform float config compresses sends_some (row 3) store
unfolding last
store-Holds = record { ordered = store-IsOrdered; is_newest = refl }

abbrev flush_of_two : Option (Result (Unit {0})) × World
flush_of_two =
    drain platform float config forced (attempt_with 202 ∷ attempt_with 202 ∷ [])
      (ready platform float config compresses sends_some (row 3) store)

drain_never_ends_example :
    (flush_of_two.0 ≡ none) × (last flush_of_two.1.database.events ≡ some (row 3))
drain_never_ends_example =
    drain_never_ends platform float config compresses sends_some (row 3)
      (attempt_with 202 ∷ attempt_with 202 ∷ []) store (attempt-Serves, (attempt-Serves, tt))
      store-Holds

failing : Fails platform float config (attempt_with 503)
unfolding of answer_of
failing request = refl

drain_ends_example :
    (result : Result (Unit {0})) × ((drain platform float config forced
        (attempt_with 202 ∷ attempt_with 503 ∷ [])
        world).0
      ≡ some result)
drain_ends_example =
    drain_ends platform float config forced (attempt_with 202 ∷ attempt_with 503 ∷ []) world
      (attempt_with 503) (tail (head refl)) failing

abbrev pub client : ClickMan
client = record { store = store; sender = default_state; context = end }

abbrev pub history : List (Call float)
history =
    tracks (text "x") (obj end) (pos 6_000_000_000)
    ∷ resets
    ∷ drains forced (attempt_with 202 ∷ [])
    ∷ []

run-Inv_example : Inv config.max_queue (run platform float config history client).store
run-Inv_example =
    run-Inv platform float config (omega arith) history client
      (tt, (tt, ((record { at = λ db v. v }, tt), tt)))
      (record { ordered = store-IsOrdered; bounded = omega arith })

delay_bounds_example :
    (from_millis (doubling 3 * 800) ≤ delay float 4 none 5)
    × (delay float 4 none 5 ≤ from_millis (doubling 3 * 1200))
    × (delay float 4 (some 7) 5 ≡ max 7 (delay float 4 none 5))
delay_bounds_example = delay_bounds float float_laws 5 3 7 (omega arith) (omega arith)
