-- ===== src/Base/Decimal/Order.antt =====
-- Texts compared by their characters, as SQLite compares them, and padded numbers compared so.
use Prim.Native.Nat.{ℕ, zero, suc, ◌+◌, ◌-◌, ◌*◌, ◌/◌, ◌%◌, ◌^◌, ◌≤◌, ◌<◌}
use native.Mathlib.Nat.{pow-suc}
use mathlib.Core.Path.{◌≡◌, refl, sym, ◌∙◌}
use mathlib.Core.Bool.{Bool, true, false, ◌&&◌, ◌||◌}
use mathlib.Core.List.{[], ◌∷◌, ◌++◌}
use native.Mathlib.Omega.{arith}
use clickman.Base.Tests.{ltb, ◌==◌}
use clickman.Base.Lists.{length, all}
use clickman.Base.Text.{Text, is_ascii_digit}
use clickman.Base.Decimal.{
  digits_before, decimal, zeros, padded, value_of, value_of-decimal, all_digits-decimal,
}

-- The first of two texts comes before the second.
unfoldable pub before : Text → Text → Bool
before s [] = false
before [] (d ∷ t) = true
before (c ∷ s) (d ∷ t) = ltb c d || c == d && before s t

-- One number, then what follows, in texts and in numbers.
abbrev pub first : ℕ → ℕ → Bool → Bool
first n m rest = ltb n m || n == m && rest

pub before-cons : (c : ℕ) (s t : Text) → before (c ∷ s) (c ∷ t) ≡ before s t
unfolding before
before-cons c s t = ground arith

first-digit :
    (n m c d : ℕ) (rest : Bool)
    → is_ascii_digit c ≡ true
    → is_ascii_digit d ≡ true
    → first n m (first c d rest) ≡ first (n * 10 + (c - 48)) (m * 10 + (d - 48)) rest
first-digit n m c d true hc hd = ground arith
first-digit n m c d false hc hd = ground arith

-- Digits of the same length compare as their numbers.
before-value_of :
    (s t u v : Text) (n m : ℕ)
    → length s ≡ length t
    → all is_ascii_digit s ≡ true
    → all is_ascii_digit t ≡ true
    → first n m (before (s ++ u) (t ++ v)) ≡ first (value_of n s) (value_of m t) (before u v)
unfolding value_of before
before-value_of [] [] u v n m l hs ht = refl
before-value_of [] (d ∷ t) u v n m l hs ht = absurd (omega arith)
before-value_of (c ∷ s) [] u v n m l hs ht = absurd (omega arith)
before-value_of (c ∷ s) (d ∷ t) u v n m l hs ht =
    first-digit n m c d (before (s ++ u) (t ++ v)) (ground arith) (ground arith)
    ∙ before-value_of s t u v (n * 10 + (c - 48)) (m * 10 + (d - 48)) (omega arith) (ground arith)
        (ground arith)

value_of-zeros : (n : ℕ) (s : Text) → value_of 0 (zeros n s) ≡ value_of 0 s
unfolding value_of zeros
value_of-zeros zero s = refl
value_of-zeros (suc n) s = value_of-zeros n s

all_digits-zeros :
    (n : ℕ) (s : Text) → all is_ascii_digit s ≡ true → all is_ascii_digit (zeros n s) ≡ true
unfolding zeros
all_digits-zeros zero s h = h
all_digits-zeros (suc n) s h = all_digits-zeros n s h

length-zeros : (n : ℕ) (s : Text) → length (zeros n s) ≡ n + length s
unfolding zeros
length-zeros zero s = omega arith
length-zeros (suc n) s = omega (arith, length-zeros n s)

length-digits_before :
    (fuel n width : ℕ) (rest : Text)
    → n < 10 ^ suc width
    → length (digits_before fuel n rest) ≤ suc width + length rest
unfolding digits_before
length-digits_before zero n width rest h = omega arith
length-digits_before (suc fuel) n zero rest h = ground arith
length-digits_before (suc fuel) n (suc width) rest h =
    let power : 10 ^ suc (suc width) ≡ 10 ^ suc width * 10 = pow-suc 10 (suc width) in
    ground (arith, length-digits_before fuel (n / 10) width ((48 + n % 10) ∷ rest))

length-padded : (width n : ℕ) → n < 10 ^ suc width → length (padded (suc width) n) ≡ suc width
unfolding padded decimal
length-padded width n h =
    length-zeros (suc width - length (decimal n)) (decimal n)
    ∙ omega (arith, length-digits_before (suc n) n width [] h)

value_of-padded : (width n : ℕ) → value_of 0 (padded width n) ≡ n
unfolding padded
value_of-padded width n =
    value_of-zeros (width - length (decimal n)) (decimal n) ∙ value_of-decimal n

all_digits-padded : (width n : ℕ) → all is_ascii_digit (padded width n) ≡ true
unfolding padded
all_digits-padded width n =
    all_digits-zeros (width - length (decimal n)) (decimal n) (all_digits-decimal n)

-- Numbers padded to the same width compare as numbers.
pub before-padded :
    (width n m : ℕ) (u v : Text)
    → n < 10 ^ suc width
    → m < 10 ^ suc width
    → before (padded (suc width) n ++ u) (padded (suc width) m ++ v) ≡ first n m (before u v)
before-padded width n m u v hn hm =
    before-value_of (padded (suc width) n) (padded (suc width) m) u v 0 0
      (length-padded width n hn ∙ sym (length-padded width m hm)) (all_digits-padded (suc width) n)
      (all_digits-padded (suc width) m)
    ∙ rw (value_of-padded (suc width) n, value_of-padded (suc width) m) refl
