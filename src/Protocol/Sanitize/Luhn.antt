-- ===== src/Protocol/Sanitize/Luhn.antt =====
-- What the check digit is for.
use clickman.Base.{
  ℕ, suc, ◌+◌, ◌-◌, ◌*◌, ◌%◌, ◌==◌, leb, if◌then◌else◌, ap, length-append, ◌<◌, ◌≡◌, refl, ◌∙◌,
  true, List, [], ◌∷◌, ◌++◌, reverse, length, arith,
}
use mathlib.Core.List.{reverse-append, reverse-cons, append_assoc}
use clickman.Base.Text.{is_ascii_digit}
use clickman.Protocol.Sanitize.{to_digit, weigh, luhn_sum, luhn}

luhn_sum-append :
    (p : ℕ) (xs ys : List ℕ) → luhn_sum p (xs ++ ys) ≡ luhn_sum p xs + luhn_sum (p + length xs) ys
unfolding luhn_sum
luhn_sum-append p [] ys = let e : p + 0 ≡ p = omega arith in rw e (omega arith)
luhn_sum-append p (x ∷ xs) ys =
    let e : p + suc (length xs) ≡ suc p + length xs = omega arith in
    rw e (omega (arith, luhn_sum-append (suc p) xs ys))

weigh-lt : (p d : ℕ) → weigh p d < 10
unfolding weigh
weigh-lt p d = ground arith

length-reverse : (xs : List ℕ) → length (reverse xs) ≡ length xs
length-reverse [] = refl
length-reverse (x ∷ xs) =
    ap length (reverse-cons x xs)
    ∙ length-append (reverse xs) (x ∷ [])
    ∙ omega (arith, length-reverse xs)

-- At each place, two digits of the same weight are the same.
weigh-inj :
    (p d e : ℕ) → is_ascii_digit d ≡ true → is_ascii_digit e ≡ true → weigh p d ≡ weigh p e → d ≡ e
unfolding weigh
weigh-inj p d e hd he h = ground arith

luhn_sum-reverse :
    (before behind : List ℕ) (d : ℕ)
    → luhn_sum 0 (reverse (before ++ d ∷ behind))
      ≡ luhn_sum 0 (reverse behind)
        + (weigh (length (reverse behind)) d
            + luhn_sum (suc (length (reverse behind))) (reverse before))
unfolding luhn_sum
luhn_sum-reverse before behind d = rw (reverse-append before (d ∷ behind)) (
    rw (reverse-cons d behind) (
      rw (append_assoc (reverse behind) (d ∷ []) (reverse before)) (
        luhn_sum-append 0 (reverse behind) (d ∷ reverse before)
        ∙ (let e : 0 + length (reverse behind) ≡ length (reverse behind) = omega arith in
            rw e refl))))

-- Of the digits that may stand at one place of a number, at most one passes the check: a number that
-- passes does not pass with another digit there.
pub luhn_detects :
    (before behind : List ℕ) (d e : ℕ)
    → is_ascii_digit d ≡ true
    → is_ascii_digit e ≡ true
    → luhn (before ++ d ∷ behind) ≡ true
    → luhn (before ++ e ∷ behind) ≡ true
    → d ≡ e
unfolding luhn
luhn_detects before behind d e hd he one two =
    let at = length (reverse behind) in
    weigh-inj at d e hd he (
      ground (
        arith,
        luhn_sum-reverse before behind d,
        luhn_sum-reverse before behind e,
        weigh-lt at d,
        weigh-lt at e,
      ))

-- The sum of the Luhn test, from the left: every second digit counted from the right end is doubled, and a
-- double above 9 is cast to the sum of its digits.
unfoldable pub check_sum : List ℕ → ℕ
check_sum [] = 0
check_sum (d ∷ digits) =
    let value = to_digit d in
    (if length digits % 2 == 0 then value else (if leb 5 value then 2 * value - 9 else 2 * value))
    + check_sum digits

weigh-value :
    (n d : ℕ)
    → weigh n d ≡ (
        if n % 2 == 0
        then to_digit d
        else (if leb 5 (to_digit d) then 2 * to_digit d - 9 else 2 * to_digit d))
unfolding weigh
weigh-value n d = ground arith

luhn_sum-one : (n d : ℕ) → luhn_sum n (d ∷ []) ≡ weigh n d
unfolding luhn_sum
luhn_sum-one n d = omega arith

luhn_sum-check_sum : (digits : List ℕ) → luhn_sum 0 (reverse digits) ≡ check_sum digits
unfolding check_sum luhn_sum
luhn_sum-check_sum [] = refl
luhn_sum-check_sum (d ∷ digits) =
    let place : 0 + length (reverse digits) ≡ length digits =
      omega (arith, length-reverse digits) in
    ap (luhn_sum 0) (reverse-cons d digits)
    ∙ luhn_sum-append 0 (reverse digits) (d ∷ [])
    ∙ ap (λ n. luhn_sum 0 (reverse digits) + luhn_sum n (d ∷ [])) place
    ∙ omega (
      arith,
      luhn_sum-one (length digits) d,
      weigh-value (length digits) d,
      luhn_sum-check_sum digits,
    )

pub luhn-check_sum : (digits : List ℕ) → luhn digits ≡ check_sum digits % 10 == 0
unfolding luhn
luhn-check_sum digits = ap (λ n. n % 10 == 0) (luhn_sum-check_sum digits)
