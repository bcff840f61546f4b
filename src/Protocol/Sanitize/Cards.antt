-- ===== src/Protocol/Sanitize/Cards.antt =====
-- Which texts hold a card number.
use clickman.Base.{
  ℕ, ◌≡◌, refl, sym, ap, subst, ◌∙◌, ◌↔◌, Bool, true, false, ◌&&◌, Option, none, some, List, [],
  ◌∷◌, ◌++◌, length, arith, ◌%◌, ◌==◌,
}
use clickman.Base.Text.{Text}
use clickman.Protocol.Sanitize.{
  starts_with_digit, card_scan, card_digits, detached_before, detached_after, is_card, card_at,
  contains_card, within,
}
use clickman.Protocol.Sanitize.Luhn.{check_sum, luhn-check_sum}
use clickman.Protocol.Sanitize.Places.{before_place, found, find}
use clickman.Protocol.Sanitize.Groups.{
  Grouped, stops, Scanned, scan_group, group_starts, grouped_scan, one, next, apart,
}

-- 13 to 19 digits, the first from 2 to 6, with the check digit right.
abbrev pub starts_card : List ℕ → Bool
starts_card [] = false
starts_card (d ∷ digits) = within b'2' b'6' d

abbrev pub is_number : List ℕ → Bool
is_number digits = within 13 19 (length digits) && starts_card digits && check_sum digits % 10 == 0

module _ (is_alphanumeric : ℕ → Bool) where
  -- A group of digits, whole and apart from letters and digits on both sides, that makes a card number.
  pub record HoldsCard (s : Text) : Type 0 where
    pub before : Text
    pub run : Text
    pub after : Text
    pub digits : List ℕ
    pub split : s ≡ before ++ (run ++ after)
    pub group : Grouped run digits
    pub whole : stops after ≡ true
    pub detached : detached_before is_alphanumeric (before_place none before) ≡ true
    pub ended : detached_after is_alphanumeric after ≡ true
    pub numbered : is_number digits ≡ true

  abbrev at : Option ℕ → List ℕ → Bool
  at = card_at is_alphanumeric

  at_end : (before : Option ℕ) → at before [] ≡ false
  unfolding card_at
  at_end before = refl

  is_card-cons :
      (d : ℕ) (digits : List ℕ) (after : Text)
      → is_card is_alphanumeric (some (d ∷ digits, after))
        ≡ (detached_after is_alphanumeric after && is_number (d ∷ digits))
  unfolding is_card
  is_card-cons d digits after = ground (arith, luhn-check_sum (d ∷ digits))

  -- The answer of `card_digits` to what was scanned.
  Tested : Text → List ℕ → List ℕ × List ℕ → Type 0
  Tested after digits (scanned, rest) =
      is_card is_alphanumeric (elim scanned [ [] ↦ none | d ∷ ds ↦ some (d ∷ ds, rest) ])
      ≡ (detached_after is_alphanumeric after && is_number digits)

  group-Tested :
      (run after : Text) (digits : List ℕ)
      → Grouped run digits
      → Tested after digits (digits, after)
  unfolding Tested
  group-Tested _ after _ (one d digit) = is_card-cons d [] after
  group-Tested _ after _ (next d run digits digit group) = is_card-cons d digits after
  group-Tested _ after _ (apart d c run digits digit separates group) = is_card-cons d digits after

  card_digits-group :
      (s run after : Text) (digits : List ℕ)
      → Grouped run digits
      → card_scan s ≡ (digits, after)
      → is_card is_alphanumeric (card_digits s)
        ≡ (detached_after is_alphanumeric after && is_number digits)
  unfolding card_digits Tested
  card_digits-group s run after digits group h =
      subst (Tested after digits) (sym h) (group-Tested run after digits group)

  at-digit :
      (before : Option ℕ) (s : Text)
      → starts_with_digit s ≡ true
      → at before s
        ≡ (detached_before is_alphanumeric before && is_card is_alphanumeric (card_digits s))
  unfolding card_at
  at-digit before [] h = absurd (ground arith)
  at-digit before (c ∷ s) h = rw h refl

  at-group :
      (before : Option ℕ) (run after : Text) (digits : List ℕ)
      → Grouped run digits
      → stops after ≡ true
      → at before (run ++ after) ≡ (
          detached_before is_alphanumeric before
          && (detached_after is_alphanumeric after && is_number digits))
  at-group before run after digits group whole =
      at-digit before (run ++ after) (group_starts run after digits group)
      ∙ ap (λ b. detached_before is_alphanumeric before && b)
          (card_digits-group (run ++ after) run after digits group
            (grouped_scan run after digits group whole))

  at-starts : (before : Option ℕ) (s : Text) → at before s ≡ true → starts_with_digit s ≡ true
  unfolding card_at
  at-starts before [] h = absurd (ground arith)
  at-starts before (c ∷ s) h = ground arith

  scanned : (s : Text) → starts_with_digit s ≡ true → Scanned s (card_scan s)
  scanned [] h = absurd (ground arith)
  scanned (c ∷ s) h = scan_group s c h

  holds :
      (s before rest run after : Text) (digits : List ℕ)
      → s ≡ before ++ rest
      → rest ≡ run ++ after
      → Grouped run digits
      → stops after ≡ true
      → at (before_place none before) rest ≡ true
      → HoldsCard s
  holds s before rest run after digits e same group whole there =
      let tests =
        sym (at-group (before_place none before) run after digits group whole)
        ∙ ap (at (before_place none before)) (sym same)
        ∙ there in
      record {
        before = before;
        run = run;
        after = after;
        digits = digits;
        split = e ∙ ap (λ t. before ++ t) same;
        group = group;
        whole = whole;
        detached = ground (arith, tests);
        ended = ground (arith, tests);
        numbered = ground (arith, tests);
      }

  -- A text is found to contain a card number if and only if it holds a group of digits, each next to the
  -- one before it or apart from it by one space or dash, that has no letter or digit before it, goes on
  -- with no such digit and with no letter or digit after it, and has 13 to 19 digits of which the first
  -- is from 2 to 6 and which pass the Luhn test, as
  -- `check_sum` states it.
  pub contains_card_exact : (s : Text) → (contains_card is_alphanumeric s ≡ true) ↔ HoldsCard s
  unfolding contains_card
  contains_card_exact s = (
    λ h.
        let (before, rest, e, there) = found is_alphanumeric at at_end none s h in
        let (run, same, group, whole) = scanned rest (at-starts _ rest there) in
        holds s before rest run _ _ e same group whole there,
    λ h.
        subst (λ t. contains_card is_alphanumeric t ≡ true) (sym h.split)
          (find is_alphanumeric at at_end h.before (h.run ++ h.after) none (
            at-group (before_place none h.before) h.run h.after h.digits h.group h.whole
            ∙ rw (h.detached, h.ended, h.numbered) refl)),
  )
