-- ===== src/Base/Decimal.antt =====
-- Decimal digits: how numbers are formatted (`{}`, `{:04}`) and how a run of digits is read.
pub mod Order
use Prim.Native.Nat.{ℕ, zero, suc, ◌+◌, ◌-◌, ◌*◌, ◌/◌, ◌%◌, ◌<◌}
use mathlib.Core.Path.{◌≡◌, refl, ◌∙◌}
use mathlib.Core.Bool.{true, false}
use mathlib.Core.Logic.{inl, inr}
use mathlib.Core.List.{[], ◌∷◌}
use native.Mathlib.Omega.{arith}
use clickman.Base.Tests.{ltb, if◌then◌else◌, Bool-cases}
use clickman.Base.Lists.{length, all}
use clickman.Base.Text.{Text, is_ascii_digit, text, is_blank}

-- The digits of a number before those given. The fuel is more than the number has digits.
unfoldable pub digits_before : ℕ → ℕ → Text → Text
digits_before zero n rest = rest
digits_before (suc fuel) n rest =
    let more = digits_before fuel (n / 10) ((48 + n % 10) ∷ rest) in
    if ltb n 10 then (48 + n) ∷ rest else more

-- `format!("{n}")`
unfoldable pub decimal : ℕ → Text
unfolding digits_before
decimal n = digits_before (suc n) n []

unfoldable pub zeros : ℕ → Text → Text
zeros zero s = s
zeros (suc n) s = 48 ∷ zeros n s

-- `format!("{n:0width$}")`
unfoldable pub padded : ℕ → ℕ → Text
unfolding decimal zeros
padded width n = let s = decimal n in zeros (width - length s) s

-- The number that digits stand for, after a number read so far.
unfoldable pub value_of : ℕ → Text → ℕ
value_of n [] = n
value_of n (d ∷ s) = value_of (n * 10 + (d - 48)) s

decimal_runs : decimal 1090 ≡ text "1090"
unfolding decimal
decimal_runs = refl

padded_runs : padded 4 26 ≡ text "0026"
unfolding padded
padded_runs = refl

value_of-digits_before :
    (fuel n acc : ℕ) (rest : Text)
    → n < fuel
    → value_of 0 (digits_before fuel n rest) ≡ value_of n rest
unfolding value_of digits_before
value_of-digits_before zero n acc rest h = absurd (omega arith)
value_of-digits_before (suc fuel) n acc rest h = elim (Bool-cases (ltb n 10)) [
  | inl small ↦ rw small (ground arith)
  | inr large ↦ rw large (
      value_of-digits_before fuel (n / 10) acc ((48 + n % 10) ∷ rest) (ground arith) ∙ ground arith)
]

-- Reading back what `decimal` writes.
pub value_of-decimal : (n : ℕ) → value_of 0 (decimal n) ≡ n
unfolding decimal value_of
value_of-decimal n = value_of-digits_before (suc n) n 0 [] (omega arith)

all_digits-before :
    (fuel n : ℕ) (rest : Text)
    → all is_ascii_digit rest ≡ true
    → all is_ascii_digit (digits_before fuel n rest) ≡ true
unfolding digits_before
all_digits-before zero n rest h = h
all_digits-before (suc fuel) n rest h =
    ground (arith, all_digits-before fuel (n / 10) ((48 + n % 10) ∷ rest))

pub all_digits-decimal : (n : ℕ) → all is_ascii_digit (decimal n) ≡ true
unfolding decimal
all_digits-decimal n = all_digits-before (suc n) n [] refl

blank-digits_before :
    (fuel n c : ℕ) (rest : Text) → is_blank (digits_before fuel n (c ∷ rest)) ≡ false
unfolding digits_before
blank-digits_before zero n c rest = refl
blank-digits_before (suc fuel) n c rest =
    ground (arith, blank-digits_before fuel (n / 10) (48 + n % 10) (c ∷ rest))

pub decimal-ne-nil : (n : ℕ) → is_blank (decimal n) ≡ false
unfolding decimal
decimal-ne-nil n = ground (arith, blank-digits_before n (n / 10) (48 + n % 10) [])
