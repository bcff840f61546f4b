-- ===== src/Protocol/Sanitize.antt =====
-- rust/crates/clickman-protocol/src/sanitize.rs. A position in a text is what stands before it and
-- what follows. `is_alphanumeric` and `to_lowercase` stand for the Unicode tables behind the methods
-- of `char` and `str`, and `is_email` for `Regex::is_match` with the pattern `EMAIL`.
-- A sanitizer is the fragments that it keeps.
pub mod Laws
pub mod Luhn
pub mod Places
pub mod Groups
pub mod Cards
pub mod Spreads
pub mod Phones
use clickman.Base.{
  ℕ, suc, ◌+◌, ◌-◌, ◌*◌, ◌%◌, Bool, true, false, ◌&&◌, ◌||◌, not, Option, none, some, List, [], ◌∷◌,
  map, reverse, length, any, ltb, leb, ◌==◌, if◌then◌else◌,
}
use clickman.Base.Text.{Text, text, text_eq, is_ascii_digit}
use clickman.Json.{Value, Fields, null, bool, number, str, arr, obj}
use clickman.Json.Map.{map_values}

abbrev pub filtered : Text
filtered = text "[FILTERED]"

abbrev pub default_fragments : List Text
default_fragments =
    text "passw"
    ∷ text "email"
    ∷ text "secret"
    ∷ text "token"
    ∷ text "_key"
    ∷ text "crypt"
    ∷ text "salt"
    ∷ text "certificate"
    ∷ text "otp"
    ∷ text "ssn"
    ∷ text "cvv"
    ∷ text "cvc"
    ∷ text "phone"
    ∷ text "address"
    ∷ text "first_name"
    ∷ text "last_name"
    ∷ text "full_name"
    ∷ text "birth"
    ∷ []

-- The fragments that `Sanitizer::new` keeps, and those of `Sanitizer::default`.
abbrev pub sanitizer : (Text → Text) → List Text → List Text
sanitizer to_lowercase fragments = map to_lowercase fragments

abbrev pub default_sanitizer : (Text → Text) → List Text
default_sanitizer to_lowercase = sanitizer to_lowercase default_fragments

-- `RangeInclusive::contains`
abbrev pub within : ℕ → ℕ → ℕ → Bool
within low high n = leb low n && leb n high

-- `chars.get(i).is_some_and(char::is_ascii_digit)`
abbrev pub starts_with_digit : List ℕ → Bool
starts_with_digit [] = false
starts_with_digit (c ∷ cs) = is_ascii_digit c

-- `str::contains`, by `str::starts_with` at each place.
unfoldable pub starts_with : Text → Text → Bool
starts_with [] s = true
starts_with (p ∷ prefix) [] = false
starts_with (p ∷ prefix) (c ∷ s) = p == c && starts_with prefix s

unfoldable pub contains : Text → Text → Bool
unfolding starts_with
contains part [] = starts_with part []
contains part (c ∷ s) = starts_with part (c ∷ s) || contains part s

-- `key.rsplit('.').next()`
unfoldable pub last_segment : Text → Text
last_segment [] = []
last_segment (c ∷ s) =
    let rest = last_segment s in
    if any (λ d. d == b'.') s then rest else if c == b'.' then s else c ∷ s

-- The digits from a place and what follows the last of them.
unfoldable pub card_scan : List ℕ → List ℕ × List ℕ
card_scan [] = ([], [])
card_scan (c ∷ rest) =
    let (digits, after) = card_scan rest in
    if is_ascii_digit c
    then (c ∷ digits, after)
    else if (c == b' ' || c == b'-') && starts_with_digit rest
    then (digits, after)
    else ([], c ∷ rest)

unfoldable pub card_digits : List ℕ → Option (List ℕ × List ℕ)
unfolding card_scan
card_digits chars =
    let (digits, after) = card_scan chars in
    elim digits [ [] ↦ none | d ∷ ds ↦ some (d ∷ ds, after) ]

-- A digit's share of the sum, by its place from the right; a character that is no digit counts 0.
abbrev pub to_digit : ℕ → ℕ
to_digit c = if is_ascii_digit c then c - 48 else 0

unfoldable pub weigh : ℕ → ℕ → ℕ
weigh position digit =
    let value = to_digit digit in
    let doubled = value * 2 in
    if position % 2 == 1 then (if ltb 9 doubled then doubled - 9 else doubled) else value

unfoldable pub luhn_sum : ℕ → List ℕ → ℕ
unfolding weigh
luhn_sum position [] = 0
luhn_sum position (digit ∷ digits) = weigh position digit + luhn_sum (suc position) digits

unfoldable pub luhn : List ℕ → Bool
unfolding luhn_sum
luhn digits = luhn_sum 0 (reverse digits) % 10 == 0

-- The loop of `phone_end`: the digits counted so far, what follows the last of them, and the
-- characters still to come.
unfoldable pub phone_scan : ℕ → List ℕ → List ℕ → ℕ × List ℕ
phone_scan digits after [] = (digits, after)
phone_scan digits after (c ∷ cs) =
    let digit = is_ascii_digit c in
    let rest = phone_scan (if digit then suc digits else digits) (if digit then cs else after) cs in
    if digit || (c == b' ' || c == b'-' || c == b'.' || c == b'(' || c == b')')
    then rest
    else (digits, after)

unfoldable pub phone_end : List ℕ → Option (ℕ × List ℕ)
unfolding phone_scan
phone_end chars =
    let (digits, after) = phone_scan 0 chars chars in
    if ltb 0 digits then some (digits, after) else none

module _ (is_alphanumeric : ℕ → Bool) where
  unfoldable pub detached_before : Option ℕ → Bool
  detached_before none = true
  detached_before (some c) = not (is_alphanumeric c)

  unfoldable pub detached_after : List ℕ → Bool
  detached_after [] = true
  detached_after (c ∷ cs) = not (is_alphanumeric c)

  -- The tests on what `card_digits` and `phone_end` return.
  abbrev pub is_card : Option (List ℕ × List ℕ) → Bool
  unfolding detached_after luhn
  is_card none = false
  is_card (some ([], after)) = false
  is_card (some (d ∷ ds, after)) =
      detached_after after && within 13 19 (length (d ∷ ds)) && within b'2' b'6' d && luhn (d ∷ ds)

  abbrev pub is_phone : Option (ℕ × List ℕ) → Bool
  unfolding detached_after
  is_phone none = false
  is_phone (some (digits, after)) = within 10 15 digits && detached_after after

  unfoldable pub card_at : Option ℕ → List ℕ → Bool
  unfolding detached_before card_digits
  card_at before [] = false
  card_at before (c ∷ cs) =
      is_ascii_digit c && detached_before before && is_card (card_digits (c ∷ cs))

  unfoldable pub phone_at : Option ℕ → List ℕ → Bool
  unfolding detached_before phone_end
  phone_at before [] = false
  phone_at before (c ∷ cs) =
      c == b'+' && detached_before before && starts_with_digit cs && is_phone (phone_end cs)

  -- `(0..chars.len()).any(…)`
  abbrev pub any_place : (Option ℕ → List ℕ → Bool) → Option ℕ → List ℕ → Bool
  any_place at before [] = false
  any_place at before (c ∷ cs) = at before (c ∷ cs) || any_place at (some c) cs

  unfoldable pub contains_card : Text → Bool
  unfolding card_at
  contains_card s = any_place card_at none s

  unfoldable pub contains_phone : Text → Bool
  unfolding phone_at
  contains_phone s = any_place phone_at none s

  module _ (to_lowercase : Text → Text) (is_email : Text → Bool) where
    unfoldable pub filtered_key : List Text → Text → Bool
    unfolding last_segment contains
    filtered_key fragments key =
        any (λ fragment. contains fragment (to_lowercase (last_segment key))) fragments

    unfoldable pub sensitive_text : Text → Bool
    unfolding contains_card contains_phone
    sensitive_text s = is_email s || contains_card s || contains_phone s

    unfoldable pub sensitive : List Text → Text → Value → Bool
    unfolding filtered_key sensitive_text
    sensitive fragments key (str s) = filtered_key fragments key || sensitive_text s
    sensitive fragments key value = filtered_key fragments key

    unfoldable pub sanitize : List Text → Fields → Fields
    unfolding sensitive
    sanitize fragments flat =
        map_values (λ key value. if sensitive fragments key value then str filtered else value) flat
