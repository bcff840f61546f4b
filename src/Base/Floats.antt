-- ===== src/Base/Floats.antt =====
-- What the Rust code uses of `f64` and of `Duration`, which the standard library has: an `f64` is its
-- 64 bits, and a duration a count of nanoseconds.
use clickman.Base.{ℕ, ◌≤◌, ◌≡◌, Bool, true, false, Option}

abbrev pub F64 : Type 0
F64 = ℕ

-- The operators and methods of `f64`, `Duration::as_secs_f64`, and `Duration::from_secs_f64`, which
-- panics where there is no such duration.
pub record Floats : Type 0 where
  pub ge : F64 → F64 → Bool
  pub add : F64 → F64 → F64
  pub sub : F64 → F64 → F64
  pub mul : F64 → F64 → F64
  pub div : F64 → F64 → F64
  pub least : F64 → F64 → F64
  pub greatest : F64 → F64 → F64
  pub ceil : F64 → F64
  pub as_secs : ℕ → F64
  pub from_secs : F64 → Option ℕ

-- The literals `0.0`, `1.0`, `20.0` and `100.0`.
abbrev pub f0 : F64
f0 = 0

abbrev pub f1 : F64
f1 = 0x3FF0000000000000

abbrev pub f20 : F64
f20 = 0x4034000000000000

abbrev pub f100 : F64
f100 = 0x4059000000000000

-- The largest finite number.
abbrev pub f_max : F64
f_max = 0x7FEFFFFFFFFFFFFF

-- What IEEE 754 says of them, where no operand is negative: the order is transitive, and reflexive but for
-- what is not a number; rounding keeps it; the product with a finite number is a number; and `min` of a
-- number and a positive one that is not above it is the latter.
pub record FloatsLaws (a : Floats) : Type 0 where
  pub zero : a.ge f0 f0 ≡ true
  pub ge_refl : (x : F64) → a.ge x f0 ≡ true → a.ge x x ≡ true
  pub ge_trans : (x y z : F64) → a.ge x y ≡ true → a.ge y z ≡ true → a.ge x z ≡ true
  pub add_ge_left :
      (x y z : F64)
      → a.ge x f0 ≡ true
      → a.ge z f0 ≡ true
      → a.ge y z ≡ true
      → a.ge (a.add x y) z ≡ true
  pub add_ge_right :
      (x y z : F64)
      → a.ge y f0 ≡ true
      → a.ge z f0 ≡ true
      → a.ge x z ≡ true
      → a.ge (a.add x y) z ≡ true
  pub mul_mono :
      (m n : ℕ) (r : F64)
      → m ≤ n
      → a.ge r f0 ≡ true
      → a.ge f_max r ≡ true
      → a.ge (a.mul (a.as_secs n) r) (a.mul (a.as_secs m) r) ≡ true
  pub mul_positive :
      (n : ℕ) (r : F64)
      → a.ge r f0 ≡ true
      → a.ge f_max r ≡ true
      → a.ge (a.mul (a.as_secs n) r) f0 ≡ true
  pub least_right : (x y : F64) → a.ge x y ≡ true → a.ge f0 y ≡ false → a.least x y ≡ y
  pub least_positive :
      (x y : F64) → a.ge x f0 ≡ true → a.ge y f0 ≡ true → a.ge (a.least x y) f0 ≡ true
  pub sub_positive : (x : F64) → a.ge x f1 ≡ true → a.ge (a.sub x f1) f0 ≡ true
