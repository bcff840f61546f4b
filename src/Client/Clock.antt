-- ===== src/Client/Clock.antt =====
-- rust/crates/clickman/src/clock.rs. A time is its nanoseconds since the Unix epoch; the calendar
-- that `OffsetDateTime` reads off a time is a parameter of what formats it.
use clickman.Base.{ℕ, suc, ◌/◌, ◌++◌, ◌∷◌, [], min}
use clickman.Base.Int.{ℤ, pos, negsuc, i64_max, sub_ℕ}
use clickman.Base.Text.{Text}
use clickman.Base.Decimal.{padded}

-- The quotient of `i128` is rounded towards zero.
unfoldable pub unix_millis : ℤ → ℤ
unix_millis (pos n) = pos (n / 1_000_000)
unix_millis (negsuc n) = sub_ℕ 0 (suc n / 1_000_000)

unfoldable pub millis : ℕ → ℤ
millis duration = pos (min (duration / 1_000_000) i64_max)

-- The fields of a time in UTC, in the years 0 to 9999.
pub record Civil : Type 0 where
  pub year : ℕ
  pub month : ℕ
  pub day : ℕ
  pub hour : ℕ
  pub minute : ℕ
  pub second : ℕ
  pub millisecond : ℕ

unfoldable pub rfc3339_millis : Civil → Text
rfc3339_millis t =
    padded 4 t.year
    ++ (b'-' ∷ padded 2 t.month)
    ++ (b'-' ∷ padded 2 t.day)
    ++ (b'T' ∷ padded 2 t.hour)
    ++ (b':' ∷ padded 2 t.minute)
    ++ (b':' ∷ padded 2 t.second)
    ++ (b'.' ∷ padded 3 t.millisecond)
    ++ b'Z' ∷ []
