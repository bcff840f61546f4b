-- ===== src/Protocol/Sanitize/Spreads.antt =====
-- The digits of a phone number with separators between, and the scan of `phone_end`.
use clickman.Base.{
  ℕ, suc, ◌+◌, ◌≡◌, refl, ap, ◌∙◌, ◌⊎◌, inl, inr, Bool, true, false, ◌&&◌, ◌||◌, not, List, [], ◌∷◌,
  ◌++◌, arith, Bool-cases, ◌==◌, ltb,
}
use clickman.Base.Text.{Text, is_ascii_digit}
use clickman.Protocol.Sanitize.{starts_with_digit, phone_scan}

abbrev pub is_separator : ℕ → Bool
is_separator c = c == b' ' || c == b'-' || c == b'.' || c == b'(' || c == b')'

-- So many digits, the last of them at the end, with any spaces, dashes, dots and parentheses between.
pub data Spread : Text → ℕ → Type 0 where
  last_digit : (d : ℕ) → is_ascii_digit d ≡ true → Spread (d ∷ []) 1
  more_digit :
      (d : ℕ) (run : Text) (n : ℕ)
      → is_ascii_digit d ≡ true
      → Spread run n
      → Spread (d ∷ run) (suc n)
  separator :
      (c : ℕ) (run : Text) (n : ℕ)
      → is_ascii_digit c ≡ false
      → is_separator c ≡ true
      → Spread run n
      → Spread (c ∷ run) n

-- No digit follows, but after a character that is neither a digit nor a separator.
abbrev pub stops : Text → Bool
stops [] = true
stops (c ∷ s) = not (is_ascii_digit c) && (not (is_separator c) || stops s)

scan_digit :
    (n : ℕ) (after : Text) (c : ℕ) (s : Text)
    → is_ascii_digit c ≡ true
    → phone_scan n after (c ∷ s) ≡ phone_scan (suc n) s s
unfolding phone_scan
scan_digit n after c s is_digit = ground arith

scan_separator :
    (n : ℕ) (after : Text) (c : ℕ) (s : Text)
    → is_ascii_digit c ≡ false
    → is_separator c ≡ true
    → phone_scan n after (c ∷ s) ≡ phone_scan n after s
unfolding phone_scan
scan_separator n after c s other separates = ground arith

scan_stops : (n : ℕ) (after s : Text) → stops s ≡ true → phone_scan n after s ≡ (n, after)
unfolding phone_scan
scan_stops n after [] h = refl
scan_stops n after (c ∷ s) h = ground (arith, scan_stops n after s)

-- What the scan of a text adds: nothing, or the digits of a run that is as long as can be.
unfoldable pub Scanned : ℕ → Text → Text → ℕ × List ℕ → Type 0
Scanned n after s result =
    ((stops s ≡ true) × (result ≡ (n, after)))
    ⊎ ((run : Text) × (k : ℕ) × (rest : Text) × (s ≡ run ++ rest)
        × Spread run k
        × (stops rest ≡ true)
        × (result ≡ (n + k, rest)))

pub scan_run : (s : Text) (n : ℕ) (after : Text) → Scanned n after s (phone_scan n after s)
unfolding Scanned
scan_run [] n after = inl (refl, scan_stops n after [] refl)
scan_run (c ∷ s) n after = elim (Bool-cases (is_ascii_digit c)) [
  | inl d ↦ elim (scan_run s (suc n) s) [
    | inl (end, e) ↦ inr (
      c ∷ [],
      1,
      s,
      refl,
      last_digit c d,
      end,
      scan_digit n after c s d ∙ e ∙ ap (λ k. (k, s)) (omega arith),
    )
    | inr (run, k, rest, same, spread, end, e) ↦ inr (
      c ∷ run,
      suc k,
      rest,
      ap (λ t. c ∷ t) same,
      more_digit c run k d spread,
      end,
      scan_digit n after c s d ∙ e ∙ ap (λ k. (k, rest)) (omega arith),
    )
  ]
  | inr other ↦ elim (Bool-cases (is_separator c)) [
    | inl separates ↦ elim (scan_run s n after) [
      | inl (end, e) ↦ inl (ground arith, scan_separator n after c s other separates ∙ e)
      | inr (run, k, rest, same, spread, end, e) ↦ inr (
        c ∷ run,
        k,
        rest,
        ap (λ t. c ∷ t) same,
        separator c run k other separates spread,
        end,
        scan_separator n after c s other separates ∙ e,
      )
    ]
    | inr ends ↦
        let end : stops (c ∷ s) ≡ true = ground arith in inl (end, scan_stops n after (c ∷ s) end)
  ]
]

pub Spread-scan :
    (run rest : Text) (k n : ℕ) (after : Text)
    → Spread run k
    → stops rest ≡ true
    → phone_scan n after (run ++ rest) ≡ (n + k, rest)
Spread-scan _ rest _ n after (last_digit d is_digit) h =
    scan_digit n after d rest is_digit
    ∙ scan_stops (suc n) rest rest h
    ∙ ap (λ k. (k, rest)) (omega arith)
Spread-scan _ rest _ n after (more_digit d run k is_digit spread) h =
    scan_digit n after d (run ++ rest) is_digit
    ∙ Spread-scan run rest k (suc n) (run ++ rest) spread h
    ∙ ap (λ k. (k, rest)) (omega arith)
Spread-scan _ rest _ n after (separator c run k other separates spread) h =
    scan_separator n after c (run ++ rest) other separates ∙ Spread-scan run rest k n after spread h

pub Spread-positive : (run : Text) (k : ℕ) → Spread run k → ltb 0 k ≡ true
Spread-positive _ _ (last_digit d is_digit) = refl
Spread-positive _ _ (more_digit d run n is_digit spread) = ground arith
Spread-positive _ _ (separator c run n other separates spread) = Spread-positive run n spread

pub not_both : (s : Text) → starts_with_digit s ≡ true → stops s ≡ true → ⊥
not_both [] h k = ground arith
not_both (c ∷ s) h k = ground arith
