-- ===== src/Client/Backoff/Header.antt =====
-- The `Retry-After` header: the saturating fold of its digits, and what it reads.
use clickman.Base.{
  ℕ, ◌+◌, ◌-◌, ◌*◌, ◌≡◌, refl, ◌∙◌, ap, true, none, some, [], ◌∷◌, min, all, arith, if◌then◌else◌,
}
use clickman.Base.Text.{Text, is_ascii_digit, is_blank, trim, trim_end}
use clickman.Base.Decimal.{decimal, value_of, value_of-decimal, all_digits-decimal, decimal-ne-nil}
use clickman.Client.Config.{from_secs}
use clickman.Client.Backoff.{u64_max, push_digit, fold_digits, retry_after}

-- Saturating at each digit is saturating the number at the end.
fold_digits-value_of :
    (n : ℕ) (digits : Text) → fold_digits (min n u64_max) digits ≡ min (value_of n digits) u64_max
unfolding fold_digits value_of push_digit
fold_digits-value_of n [] = refl
fold_digits-value_of n (d ∷ digits) =
    ap (λ a. fold_digits a digits) (omega arith) ∙ fold_digits-value_of (n * 10 + (d - 48)) digits

trim_end_digits : (s : Text) → all is_ascii_digit s ≡ true → trim_end s ≡ s
unfolding trim_end
trim_end_digits [] h = refl
trim_end_digits (c ∷ s) h = ground (arith, trim_end_digits s)

trim_digits : (s : Text) → all is_ascii_digit s ≡ true → trim s ≡ s
unfolding trim
trim_digits [] h = refl
trim_digits (c ∷ s) h = ground (arith, trim_end_digits (c ∷ s))

-- A header is advice exactly when it is a run of digits with white space around it, and then its
-- number, held at the largest `u64`, is the advice in seconds.
pub retry_after-value_of :
    (header : Text)
    → retry_after (some header) ≡ (
        if is_blank (trim header)
        then none
        else if all is_ascii_digit (trim header)
        then some (from_secs (min (value_of 0 (trim header)) u64_max))
        else none)
unfolding retry_after
retry_after-value_of header = ground (arith, fold_digits-value_of 0 (trim header))

-- A number of seconds written in decimal is read back as that many seconds, held at `u64::MAX`.
pub retry_after-decimal :
    (seconds : ℕ) → retry_after (some (decimal seconds)) ≡ some (from_secs (min seconds u64_max))
retry_after-decimal seconds =
    retry_after-value_of (decimal seconds)
    ∙ rw (
      trim_digits (decimal seconds) (all_digits-decimal seconds),
      all_digits-decimal seconds,
      value_of-decimal seconds,
      decimal-ne-nil seconds,
    )
