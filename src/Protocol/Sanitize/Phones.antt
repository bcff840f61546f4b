-- ===== src/Protocol/Sanitize/Phones.antt =====
-- Which texts hold a phone number.
use clickman.Base.{
  ℕ, ◌+◌, ◌≡◌, refl, sym, ap, subst, ◌∙◌, ◌↔◌, inl, inr, Bool, true, false, ◌&&◌, Option, none,
  some, List, [], ◌∷◌, ◌++◌, arith, ltb, if◌then◌else◌,
}
use clickman.Base.Text.{Text}
use clickman.Protocol.Sanitize.{
  starts_with_digit, phone_end, detached_before, detached_after, is_phone, phone_at, contains_phone,
  within,
}
use clickman.Protocol.Sanitize.Places.{before_place, found, find}
use clickman.Protocol.Sanitize.Spreads.{
  Spread, stops, Scanned, scan_run, Spread-scan, Spread-positive, not_both,
}

module _ (is_alphanumeric : ℕ → Bool) where
  -- A plus sign apart from letters and digits before it, then a digit, and with it 10 to 15 digits with
  -- separators between, as far as they go, and then no letter.
  pub record HoldsPhone (s : Text) : Type 0 where
    pub before : Text
    pub run : Text
    pub rest : Text
    pub count : ℕ
    pub split : s ≡ before ++ (b'+' ∷ run ++ rest)
    pub spread : Spread run count
    pub whole : stops rest ≡ true
    pub starts : starts_with_digit (run ++ rest) ≡ true
    pub detached : detached_before is_alphanumeric (before_place none before) ≡ true
    pub ended : detached_after is_alphanumeric rest ≡ true
    pub counted : within 10 15 count ≡ true

  abbrev at : Option ℕ → List ℕ → Bool
  at = phone_at is_alphanumeric

  at_end : (before : Option ℕ) → at before [] ≡ false
  unfolding phone_at
  at_end before = refl

  -- The answer of `phone_end` to what was scanned.
  Tested : Text → ℕ → ℕ × List ℕ → Type 0
  Tested rest k (digits, after) =
      is_phone is_alphanumeric (if ltb 0 digits then some (digits, after) else none)
      ≡ (within 10 15 k && detached_after is_alphanumeric rest)

  is_phone-Spread :
      (run rest : Text) (k : ℕ)
      → Spread run k
      → stops rest ≡ true
      → is_phone is_alphanumeric (phone_end (run ++ rest))
        ≡ (within 10 15 k && detached_after is_alphanumeric rest)
  unfolding phone_end Tested is_phone
  is_phone-Spread run rest k spread h =
      let unit : 0 + k ≡ k = omega arith in
      subst (Tested rest k)
        (sym (Spread-scan run rest k 0 (run ++ rest) spread h ∙ ap (λ n. (n, rest)) unit))
        (rw (Spread-positive run k spread) refl)

  at-Spread :
      (before : Option ℕ) (run rest : Text) (k : ℕ)
      → Spread run k
      → stops rest ≡ true
      → at before (b'+' ∷ run ++ rest) ≡ (
          detached_before is_alphanumeric before
          && (starts_with_digit (run ++ rest)
              && (within 10 15 k && detached_after is_alphanumeric rest)))
  unfolding phone_at
  at-Spread before run rest k spread h = ground (arith, is_phone-Spread run rest k spread h)

  at-starts :
      (before : Option ℕ) (s : Text)
      → at before s ≡ true
      → (t : Text) × (s ≡ b'+' ∷ t) × (starts_with_digit t ≡ true)
  unfolding phone_at
  at-starts before [] h = absurd (ground arith)
  at-starts before (c ∷ s) h = (s, ap (λ d. d ∷ s) (ground arith), ground arith)

  holds :
      (s before rest : Text) (t : Text)
      → s ≡ before ++ rest
      → rest ≡ b'+' ∷ t
      → starts_with_digit t ≡ true
      → at (before_place none before) rest ≡ true
      → HoldsPhone s
  unfolding Scanned
  holds s before rest t e plus starts there = elim (scan_run t 0 t) [
    | inl (end, _) ↦ absurd (not_both t starts end)
    | inr (run, k, after, same, spread, whole, _) ↦
        let tests =
          sym (at-Spread (before_place none before) run after k spread whole)
          ∙ ap (λ u. at (before_place none before) (b'+' ∷ u)) (sym same)
          ∙ ap (at (before_place none before)) (sym plus)
          ∙ there in
        record {
          before = before;
          run = run;
          rest = after;
          count = k;
          split = e ∙ ap (λ u. before ++ u) (plus ∙ ap (λ u. b'+' ∷ u) same);
          spread = spread;
          whole = whole;
          starts = ground (arith, tests);
          detached = ground (arith, tests);
          ended = ground (arith, tests);
          counted = ground (arith, tests);
        }
  ]

  -- A text is found to contain a phone number if and only if it holds a plus sign with no letter or digit
  -- before it, and next to it a digit, from which 10 to 15 digits are counted, with any spaces, dashes,
  -- dots and parentheses between them, as far as such characters and digits go, and the last digit has no
  -- letter or digit after it.
  pub contains_phone_exact : (s : Text) → (contains_phone is_alphanumeric s ≡ true) ↔ HoldsPhone s
  unfolding contains_phone
  contains_phone_exact s = (
    λ h.
        let (before, rest, e, there) = found is_alphanumeric at at_end none s h in
        let (t, plus, starts) = at-starts _ rest there in holds s before rest t e plus starts there,
    λ h.
        subst (λ t. contains_phone is_alphanumeric t ≡ true) (sym h.split)
          (find is_alphanumeric at at_end h.before (b'+' ∷ h.run ++ h.rest) none (
            at-Spread (before_place none h.before) h.run h.rest h.count h.spread h.whole
            ∙ rw (h.detached, h.starts, h.counted, h.ended) refl)),
  )
