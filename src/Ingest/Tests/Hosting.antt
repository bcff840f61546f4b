-- ===== src/Ingest/Tests/Hosting.antt =====
-- The theorems about the environment, the two databases and the end of the server, at concrete inputs.
use clickman.Ingest.Server.Shutdown.{
  Process, interrupted, stdin_read, orphaned, Ignored, by_end, installed, shutdown_signal,
  exit_after, shutdown_exact,
}
use clickman.Base.Decimal.Order.{before}
use clickman.Ingest.Database.Times.{active_record_time, before-active_record_time}
use clickman.Base.Text.{text_eq}
use clickman.Base.{
  if◌then◌else◌, Option, ◌≤◌, ◌↔◌, refl, Bool, true, false, some, none, ◌++◌, All, ◌/◌, ℕ, ◌*◌, ◌≡◌,
  [], ◌∷◌, arith,
}
use clickman.Base.Int.{ℤ, pos}
use clickman.Base.Text.{Text, text}
use clickman.Json.{Fields, end, field}
use clickman.Ingest.Database.Times.{Stamp}

abbrev one_letter : ℕ → Text
one_letter id = id ∷ []

abbrev midnight : ℤ → Stamp
midnight t = record {
  year = 2026;
  month = 1;
  day = 2;
  hour = 0;
  minute = 0;
  second = 0;
  microsecond = 0;
}

abbrev to_thousands : ℤ → ℤ
to_thousands (pos n) = pos (n / 1000 * 1000)
to_thousands t = t

-- The keys in another order.
abbrev reversed_onto : Fields → Fields → Fields
reversed_onto end fields = fields
reversed_onto (field key value rest) fields = reversed_onto rest (field key value fields)

abbrev reversed : Fields → Fields
reversed fields = reversed_onto fields end

abbrev supervised : Process
supervised = record {
  ctrl_c_installed = true;
  terminate_installed = true;
  supervised = some (text "1");
}

some_read-Ignored : Ignored (some (text "1")) (stdin_read 3)
some_read-Ignored cause ends = elim ends [ ]

shutdown_exact_example :
    ((shutdown_signal supervised (interrupted ∷ []) ≡ none)
      ↔ ((installed supervised ≡ true) × All (Ignored (some (text "1"))) (interrupted ∷ [])))
    × (shutdown_signal supervised ((stdin_read 3 ∷ []) ++ stdin_read 0 ∷ interrupted ∷ [])
        ≡ some orphaned)
    × ((served : Bool) × (n : ℕ) × (exit_after orphaned none ≡ some (served, n))
        × (n ≤ 10_000_000_000))
    × (exit_after orphaned none ≡ some (false, 10_000_000_000))
shutdown_exact_example =
    shutdown_exact supervised (stdin_read 3 ∷ []) (interrupted ∷ []) (stdin_read 0) orphaned none
      (some_read-Ignored, tt) (by_end refl)

abbrev later : Stamp
later = record (midnight (pos 0)) { microsecond = 7 }

before-active_record_time_example :
    before (active_record_time (midnight (pos 0))) (active_record_time later) ≡ true
before-active_record_time_example =
    before-active_record_time (midnight (pos 0)) later
      (record {
        year = omega arith;
        month = omega arith;
        day = omega arith;
        hour = omega arith;
        minute = omega arith;
        second = omega arith;
        microsecond = omega arith;
      })
      (record {
        year = omega arith;
        month = omega arith;
        day = omega arith;
        hour = omega arith;
        minute = omega arith;
        second = omega arith;
        microsecond = omega arith;
      })

-- An environment with the address of the database and a refresh period.
abbrev environment : Text → Option Text
environment name =
    if text_eq name (text "DATABASE_URL")
    then some (text "sqlite:x")
    else (if text_eq name (text "CLICKMAN_INGEST_SETTINGS_REFRESH") then some (text "7") else none)
