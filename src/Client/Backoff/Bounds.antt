-- ===== src/Client/Backoff/Bounds.antt =====
-- The bounds of a delay (protocol/fixtures/backoff.json).
use clickman.Base.{ℕ, zero, suc, ◌-◌, ◌*◌, ◌/◌, ◌^◌, ◌≤◌, ◌≡◌, refl, none, some, min, max, arith}
use native.Mathlib.Nat.{pow-suc}
use clickman.Client.Config.{from_secs, from_millis}
use clickman.Client.Backoff.{saturating_pow2, doubled, jittered, delay}
use clickman.Client.Backoff.Float.{Float64, Float64Laws}

-- What the documentation says of the delay in seconds: 5 doubled per failure, up to 600.
abbrev pub doubling : ℕ → ℕ
doubling zero = 5
doubling (suc n) = min (doubling n * 2) 600

pow_ge : (n : ℕ) → 32 ≤ n → 128 ≤ 2 ^ n
pow_ge zero h = absurd (omega arith)
pow_ge (suc n) h = rw (pow-suc) (ground (arith, pow_ge n, pow_31 n))
  where
    pow_31 : (k : ℕ) → k ≡ 31 → 2 ^ k ≡ 2147483648
    pow_31 k e = rw e

doubling-pow : (n : ℕ) → doubling n ≡ min (2 ^ n * 5) 600
doubling-pow zero = refl
doubling-pow (suc n) = rw (pow-suc) (omega (arith, doubling-pow n))

-- Without the saturation of `u32` and of `Duration`, which nothing reaches below the cap.
saturating_pow2-min : (n : ℕ) → min (saturating_pow2 n * 5) 600 ≡ min (2 ^ n * 5) 600
unfolding saturating_pow2
saturating_pow2-min n = ground (arith, pow_ge n)

-- The delay before the jitter is 5 seconds doubled for each failure after the first, up to 600.
pub doubled-doubling : (n : ℕ) → doubled (suc n) ≡ from_secs (doubling n)
unfolding doubled
doubled-doubling n =
    let e : suc n - 1 ≡ n = omega arith in
    rw e (omega (arith, saturating_pow2-min n, doubling-pow n))

doubling-le : (n : ℕ) → doubling n ≤ 600
doubling-le zero = omega arith
doubling-le (suc n) = omega arith

module _ (f : Float64) (laws : Float64Laws f) (random : f.F) where
  open f use {le, tenths, add, mul, of_ℕ, trunc}

  scaled_le :
      (a b : f.F) (s : ℕ)
      → le a b
      → trunc (mul (of_ℕ s) (add (tenths 8) (mul (tenths 4) a)))
        ≤ trunc (mul (of_ℕ s) (add (tenths 8) (mul (tenths 4) b)))
  scaled_le a b s h = laws.trunc_mono _ _ (
      laws.mul_mono _ _ _ _ (laws.le_refl _)
        (laws.add_mono _ _ _ _ (laws.le_refl _) (laws.mul_mono _ _ _ _ (laws.le_refl _) h)))

  jittered_bounds :
      (s : ℕ)
      → s ≤ 600
      → le (tenths 0) random
      → le random (tenths 10)
      → (from_millis (s * 800) ≤ jittered f (from_secs s) random)
        × (jittered f (from_secs s) random ≤ from_millis (s * 1200))
  unfolding jittered
  jittered_bounds s h low high =
      let e : from_secs s / 1_000_000 ≡ s * 1000 = omega arith in
      rw e (
        omega (
          arith,
          scaled_le (tenths 0) random (s * 1000) low,
          scaled_le random (tenths 10) (s * 1000) high,
          laws.low_exact s h,
          laws.high_exact s h,
        ))

  -- With the random number between 0 and 1, the delay after n + 1 failures is within a fifth of
  -- 5 seconds doubled n times and held at 600; and a `Retry-After` is taken when it is longer.
  pub delay_bounds :
      (n advice : ℕ)
      → le (tenths 0) random
      → le random (tenths 10)
      → (from_millis (doubling n * 800) ≤ delay f (suc n) none random)
        × (delay f (suc n) none random ≤ from_millis (doubling n * 1200))
        × (delay f (suc n) (some advice) random ≡ max advice (delay f (suc n) none random))
  unfolding delay
  delay_bounds n advice low high =
      rw doubled-doubling
        (let b = jittered_bounds (doubling n) (doubling-le n) low high in (b.0, b.1, refl))
