-- ===== src/Ingest/Configuration/Numbers.antt =====
-- How the environment's numbers are read.
use clickman.Base.{
  ℕ, ◌+◌, ◌-◌, ◌*◌, ◌≤◌, ◌≡◌, refl, true, false, Option, none, some, [], ◌∷◌, ◌++◌, all, leb, arith,
  ◌==◌, if◌then◌else◌, Bool-cases, inl, inr,
}
use clickman.Base.Text.{Text, text, is_ascii_digit, is_blank}
use clickman.Base.Decimal.{decimal, value_of, value_of-decimal, all_digits-decimal, decimal-ne-nil}
use clickman.Protocol.Outcome.{ok, err}
use clickman.Ingest.Configuration.{digits_within, unsigned, number}

value_of-le : (n : ℕ) (s : Text) → n ≤ value_of n s
unfolding value_of
value_of-le n [] = omega arith
value_of-le n (d ∷ s) = omega (arith, value_of-le (n * 10 + (d - 48)) s)

digits_within-value_of :
    (bound n : ℕ) (s : Text)
    → all is_ascii_digit s ≡ true
    → n ≤ bound
    → digits_within bound n s ≡ (if leb (value_of n s) bound then some (value_of n s) else none)
unfolding digits_within value_of
digits_within-value_of bound n [] h le = ground arith
digits_within-value_of bound n (d ∷ s) h le = elim (Bool-cases (leb (n * 10 + (d - 48)) bound)) [
  | inl fits ↦ ground (arith, digits_within-value_of bound (n * 10 + (d - 48)) s)
  | inr over ↦ ground (arith, value_of-le (n * 10 + (d - 48)) s)
]

unsigned_digits :
    (bound : ℕ) (s : Text)
    → all is_ascii_digit s ≡ true
    → is_blank s ≡ false
    → unsigned bound s ≡ (if leb (value_of 0 s) bound then some (value_of 0 s) else none)
unfolding unsigned
unsigned_digits bound [] h ne = absurd (ground arith)
unsigned_digits bound (c ∷ []) h ne = digits_within-value_of bound 0 (c ∷ []) h (omega arith)
unsigned_digits bound (c ∷ d ∷ s) h ne = elim (Bool-cases (c == b'+')) [
  | inl plus ↦ absurd (ground arith)
  | inr digit ↦ rw digit (digits_within-value_of bound 0 (c ∷ d ∷ s) h (omega arith))
]

-- A variable that is not set has its default. One that is set to a number in decimal has that number,
-- 0 included, where it is within the bound of its type, and else is an error that names the variable.
pub number-decimal :
    (bound default n : ℕ) (name : Text)
    → (number bound name default none ≡ ok default)
      × (number bound name default (some (decimal n))
          ≡ (if leb n bound then ok n else err (name ++ text " must be a positive number")))
unfolding number
number-decimal bound default n name = (
  refl,
  rw (unsigned_digits bound (decimal n) (all_digits-decimal n) (decimal-ne-nil n))
      (rw (value_of-decimal n) (ground arith)),
)

-- A variable that is not set, or is set to a number in decimal.
abbrev pub written : Option ℕ → Option Text
written none = none
written (some n) = some (decimal n)

abbrev pub given : ℕ → Option ℕ → ℕ
given default none = default
given default (some n) = n
