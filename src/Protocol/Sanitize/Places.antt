-- ===== src/Protocol/Sanitize/Places.antt =====
-- The search of `contains_card` and `contains_phone`: a place in a text splits it in two.
use clickman.Base.{
  ◌≡◌, refl, ap, inl, inr, Bool, true, false, Option, some, List, [], ◌∷◌, ◌++◌, arith, Bool-cases,
  ℕ,
}
use clickman.Base.Text.{Text}
use clickman.Protocol.Sanitize.{any_place}

-- The character before a place, with what stands before it in the text.
abbrev pub before_place : Option ℕ → Text → Option ℕ
before_place before [] = before
before_place before (c ∷ s) = before_place (some c) s

-- The text splits at a place for which the test holds.
abbrev pub Somewhere : (Option ℕ → List ℕ → Bool) → Option ℕ → Text → Type 0
Somewhere at before s =
    (start : Text) × (rest : Text) × (s ≡ start ++ rest)
    × (at (before_place before start) rest ≡ true)

module _ (is_alphanumeric : ℕ → Bool) (at : Option ℕ → List ℕ → Bool)
    (not_at_end : (before : Option ℕ) → at before [] ≡ false) where
  abbrev place : Option ℕ → Text → Bool
  place = any_place is_alphanumeric at

  pub found : (before : Option ℕ) (s : Text) → place before s ≡ true → Somewhere at before s
  found before [] h = absurd (ground arith)
  found before (c ∷ s) h = elim (Bool-cases (at before (c ∷ s))) [
    | inl here ↦ ([], c ∷ s, refl, here)
    | inr past ↦
        let (start, rest, e, there) = found (some c) s (ground arith) in
        (c ∷ start, rest, ap (◌∷◌ c) e, there)
  ]

  pub find :
      (start rest : Text) (before : Option ℕ)
      → at (before_place before start) rest ≡ true
      → place before (start ++ rest) ≡ true
  find [] [] before h = absurd (ground (arith, not_at_end before))
  find [] (c ∷ rest) before h = ground arith
  find (c ∷ start) rest before h = ground (arith, find start rest (some c) h)
