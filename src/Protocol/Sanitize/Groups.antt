-- ===== src/Protocol/Sanitize/Groups.antt =====
-- The digits of a card, grouped by single spaces or dashes, and the scan of `card_digits`.
use clickman.Base.{
  ℕ, ◌≡◌, refl, ap, inl, inr, Bool, true, ◌&&◌, ◌||◌, not, List, [], ◌∷◌, ◌++◌, arith, Bool-cases,
  ◌==◌,
}
use clickman.Base.Text.{Text, is_ascii_digit}
use clickman.Protocol.Sanitize.{starts_with_digit, card_scan}

abbrev pub is_separator : ℕ → Bool
is_separator c = c == b' ' || c == b'-'

-- Digits, each next to the one before it or apart from it by one space or dash.
pub data Grouped : Text → List ℕ → Type 0 where
  one : (d : ℕ) → is_ascii_digit d ≡ true → Grouped (d ∷ []) (d ∷ [])
  next :
      (d : ℕ) (run : Text) (digits : List ℕ)
      → is_ascii_digit d ≡ true
      → Grouped run digits
      → Grouped (d ∷ run) (d ∷ digits)
  apart :
      (d c : ℕ) (run : Text) (digits : List ℕ)
      → is_ascii_digit d ≡ true
      → is_separator c ≡ true
      → Grouped run digits
      → Grouped (d ∷ c ∷ run) (d ∷ digits)

-- No digit follows that belongs to the group.
abbrev pub stops : Text → Bool
stops [] = true
stops (c ∷ s) = not (is_ascii_digit c) && not (is_separator c && starts_with_digit s)

scan_stops : (s : Text) → stops s ≡ true → card_scan s ≡ ([], s)
unfolding card_scan
scan_stops [] h = refl
scan_stops (c ∷ s) h = ground arith

pub scan_digit :
    (c : ℕ) (s : Text)
    → is_ascii_digit c ≡ true
    → card_scan (c ∷ s) ≡ (c ∷ (card_scan s).0, (card_scan s).1)
unfolding card_scan
scan_digit c s digit = rw digit refl

scan_separator :
    (c : ℕ) (s : Text)
    → is_separator c ≡ true
    → starts_with_digit s ≡ true
    → card_scan (c ∷ s) ≡ card_scan s
unfolding card_scan
scan_separator c s separates starts = ground arith

-- What the scan of a text gives: a whole group, and what is left stops it.
abbrev pub Scanned : Text → List ℕ × List ℕ → Type 0
Scanned s result =
    (run : Text) × (s ≡ run ++ result.1) × Grouped run result.0 × (stops result.1 ≡ true)

pub scan_group : (s : Text) (c : ℕ) → is_ascii_digit c ≡ true → Scanned (c ∷ s) (card_scan (c ∷ s))
scan_group [] c digit =
    rw (scan_digit c [] digit, scan_stops [] refl) (c ∷ [], refl, one c digit, refl)
scan_group (d ∷ []) c digit = elim (Bool-cases (is_ascii_digit d)) [
  | inl more ↦
      let (run, e, group, end) = scan_group [] d more in
      rw (scan_digit c (d ∷ []) digit) (c ∷ run, ap (◌∷◌ c) e, next c run _ digit group, end)
  | inr other ↦
      let end : stops (d ∷ []) ≡ true = ground arith in
      rw (scan_digit c (d ∷ []) digit, scan_stops (d ∷ []) end) (c ∷ [], refl, one c digit, end)
]
scan_group (d ∷ e ∷ s) c digit = elim (Bool-cases (is_ascii_digit d)) [
  | inl more ↦
      let (run, same, group, end) = scan_group (e ∷ s) d more in
      rw (scan_digit c (d ∷ e ∷ s) digit) (c ∷ run, ap (◌∷◌ c) same, next c run _ digit group, end)
  | inr other ↦ elim (Bool-cases (is_separator d && is_ascii_digit e)) [
    | inl goes_on ↦
        let (run, same, group, end) = scan_group s e (ground arith) in
        rw (scan_digit c (d ∷ e ∷ s) digit, scan_separator d (e ∷ s) (ground arith) (ground arith))
          (c ∷ d ∷ run, ap (λ t. c ∷ d ∷ t) same, apart c d run _ digit (ground arith) group, end)
    | inr ends ↦
        let end : stops (d ∷ e ∷ s) ≡ true = ground arith in
        rw (scan_digit c (d ∷ e ∷ s) digit, scan_stops (d ∷ e ∷ s) end)
          (c ∷ [], refl, one c digit, end)
  ]
]

pub group_starts :
    (run after : Text) (digits : List ℕ)
    → Grouped run digits
    → starts_with_digit (run ++ after) ≡ true
group_starts _ after _ (one d digit) = digit
group_starts _ after _ (next d run digits digit group) = digit
group_starts _ after _ (apart d c run digits digit separates group) = digit

pub grouped_scan :
    (run after : Text) (digits : List ℕ)
    → Grouped run digits
    → stops after ≡ true
    → card_scan (run ++ after) ≡ (digits, after)
grouped_scan _ after _ (one d digit) h = rw (scan_digit d after digit, scan_stops after h) refl
grouped_scan _ after _ (next d run digits digit group) h =
    rw (scan_digit d (run ++ after) digit, grouped_scan run after digits group h) refl
grouped_scan _ after _ (apart d c run digits digit separates group) h =
    rw
      (
        scan_digit d (c ∷ run ++ after) digit,
        scan_separator c (run ++ after) separates (group_starts run after digits group),
        grouped_scan run after digits group h,
      )
      refl
