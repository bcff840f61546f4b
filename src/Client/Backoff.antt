-- ===== src/Client/Backoff.antt =====
-- rust/crates/clickman/src/backoff.rs. The arithmetic of `f64` is a parameter.
pub mod Float
pub mod Bounds
pub mod Header
use clickman.Base.{
  ℕ, ◌+◌, ◌-◌, ◌*◌, ◌/◌, ◌^◌, Bool, true, false, Option, none, some, List, [], ◌∷◌, min, max, leb,
  all, if◌then◌else◌, not,
}
use clickman.Base.Text.{Text, is_ascii_digit, trim, is_blank}
use clickman.Client.Config.{from_secs, from_millis}
use Float.{Float64}

abbrev pub first_delay : ℕ
first_delay = from_secs 5

abbrev pub max_delay : ℕ
max_delay = from_secs 600

abbrev pub u32_max : ℕ
u32_max = 2 ^ 32 - 1

abbrev pub u64_max : ℕ
u64_max = 2 ^ 64 - 1

-- `Duration::MAX`
abbrev pub duration_max : ℕ
duration_max = from_secs u64_max + 999_999_999

-- `2u32.saturating_pow(n)`
unfoldable pub saturating_pow2 : ℕ → ℕ
saturating_pow2 n = if leb 32 n then u32_max else 2 ^ n

-- The doubled delay, before the jitter.
unfoldable pub doubled : ℕ → ℕ
unfolding saturating_pow2
doubled failures = min (min (first_delay * saturating_pow2 (failures - 1)) duration_max) max_delay

module _ (f : Float64) where
  unfoldable pub jittered : ℕ → f.F → ℕ
  jittered doubled random = from_millis (
      f.trunc
        (f.mul (f.of_ℕ (doubled / 1_000_000)) (f.add (f.tenths 8) (f.mul (f.tenths 4) random))))

  unfoldable pub delay : ℕ → Option ℕ → f.F → ℕ
  unfolding doubled jittered
  delay failures none random = jittered (doubled failures) random
  delay failures (some advice) random = max advice (jittered (doubled failures) random)

-- One digit of the fold, `saturating_mul(10)` and `saturating_add(digit)` on `u64`.
unfoldable pub push_digit : ℕ → ℕ → ℕ
push_digit seconds digit = min (min (seconds * 10) u64_max + (digit - b'0')) u64_max

unfoldable pub fold_digits : ℕ → Text → ℕ
unfolding push_digit
fold_digits seconds [] = seconds
fold_digits seconds (digit ∷ digits) = fold_digits (push_digit seconds digit) digits

unfoldable pub retry_after : Option Text → Option ℕ
unfolding fold_digits
retry_after none = none
retry_after (some header) =
    let digits = trim header in
    if is_blank digits
    then none
    else if all is_ascii_digit digits
    then some (from_secs (fold_digits 0 digits))
    else none
