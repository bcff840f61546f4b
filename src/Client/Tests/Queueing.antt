-- ===== src/Client/Tests/Queueing.antt =====
-- The theorems about the store, at the test data.
use clickman.Base.{
  suc, ◌-◌, ◌≤◌, ◌<◌, ◌≡◌, refl, ◌⊎◌, true, false, none, some, [], ◌∷◌, ◌++◌, length, take, drop,
  arith, min,
}
use clickman.Base.Int.{pos}
use clickman.Base.Text.{text, byte_length}
use clickman.Json.{Fields, bool, end, field}
use clickman.Client.Error.{Result, ok, err}
use clickman.Client.Store.{Database}
use clickman.Client.Store.Migrate.{File}
use clickman.Client.Queue.{taken, joined}
use clickman.Client.Queue.Taken.{taken_exact}
use clickman.Client.Identity.{is_valid_text}
use clickman.Client.Event.{Recorder, record_event}
use clickman.Client.Event.Record.{new_row, record_exact}
use clickman.Client.Launch.{Release}
use clickman.Client.Tests.{rows, store, store-IsOrdered, platform}

abbrev recorder : Recorder
recorder = record { context = end; now = pos 5000; max_queue = 3 }

abbrev release : Release
release = record { version = text "1.0"; build = text "7" }

abbrev old_file : File
old_file = record {
  user_version = pos 0;
  events = some (rows, 3);
  identity = none;
  state = some (
      (text "traits", text "{\"plan\":1}")
      ∷ (text "app_build", text "7")
      ∷ (text "external_id", text "u")
      ∷ []);
}

taken_exact_example :
    let n = taken (text "ab" ∷ text "cd" ∷ text "ef" ∷ []) 5 5 in
    (1 ≤ n)
    × (n ≤ min 5 3)
    × ((n ≡ 1) ⊎ (byte_length (joined (take n (text "ab" ∷ text "cd" ∷ text "ef" ∷ []))) ≤ 5))
    × ((n ≡ min 5 3)
        ⊎ (5 < byte_length (joined (take (suc n) (text "ab" ∷ text "cd" ∷ text "ef" ∷ [])))))
taken_exact_example =
    taken_exact (text "ab" ∷ text "cd" ∷ text "ef" ∷ []) 5 5 (ground arith) (omega arith)

abbrev traits : Fields
traits = field (text "a") (bool true) (field (text "b") (bool false) end)

record_exact_example :
    record_event platform recorder (text "x") end store
    ≡ ok (
      platform.now_v7 (suc store.sequence),
      record {
        events =
            drop
              (length (store.events ++ new_row platform recorder (text "x") end end store ∷ [])
                - recorder.max_queue)
              (store.events ++ new_row platform recorder (text "x") end end store ∷ []);
        sequence = suc store.sequence;
        identity = store.identity;
      },
    )
unfolding is_valid_text
record_exact_example =
    record_exact platform recorder (text "x") end store end refl refl store-IsOrdered (omega arith)

abbrev stored_by : Result (Unit {0} × Database) → Database
stored_by (ok (u, db)) = db
stored_by (err e) = store
