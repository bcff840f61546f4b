-- ===== src/Client/Backoff/Float.antt =====
-- What `delay` of rust/crates/clickman/src/backoff.rs uses of `f64`: the operations, and the facts
-- of IEEE 754 arithmetic on values that are not negative, that they are monotone and what they
-- return for the two ends of the range of delays.
use clickman.Base.{ℕ, ◌*◌, ◌≤◌, ◌≡◌}

pub record Float64 : Type 1 where
  pub F : Type 0
  pub le : F → F → Type 0
  -- a natural number as `f64`, a decimal literal of tenths, and `as u64`
  pub of_ℕ : ℕ → F
  pub tenths : ℕ → F
  pub add : F → F → F
  pub mul : F → F → F
  pub trunc : F → ℕ

pub record Float64Laws (f : Float64) : Type 0 where
  pub le_refl : (a : f.F) → f.le a a
  pub add_mono : (a b d e : f.F) → f.le a b → f.le d e → f.le (f.add a d) (f.add b e)
  pub mul_mono : (a b d e : f.F) → f.le a b → f.le d e → f.le (f.mul a d) (f.mul b e)
  pub trunc_mono : (a b : f.F) → f.le a b → f.trunc a ≤ f.trunc b
  -- 0.8 + 0.4 * 0 and 0.8 + 0.4 * 1, as rounded, times a whole number of seconds in milliseconds
  pub low_exact :
      (s : ℕ)
      → s ≤ 600
      → f.trunc (f.mul (f.of_ℕ (s * 1000)) (f.add (f.tenths 8) (f.mul (f.tenths 4) (f.tenths 0))))
        ≡ s * 800
  pub high_exact :
      (s : ℕ)
      → s ≤ 600
      → f.trunc (f.mul (f.of_ℕ (s * 1000)) (f.add (f.tenths 8) (f.mul (f.tenths 4) (f.tenths 10))))
        ≡ s * 1200
