-- ===== src/Ingest/Settings.antt =====
-- rust/crates/clickman-ingest/src/settings.rs, from the published settings as `serde` reads them.
-- `sha256` stands for `Sha256::digest`, and `duration_days` for `Duration::days`, which panics
-- where the duration has no value.
pub mod Cell
pub mod Table
use clickman.Base.{
  ℕ, ◌+◌, ◌-◌, ◌*◌, ◌/◌, ◌%◌, ◌<◌, ◌≤◌, ◌⊎◌, ltb, Option, none, some, List, [], ◌∷◌, map,
  if◌then◌else◌, ◌≡◌, refl, ap, ◌∙◌, arith, Option-cases, inl, inr,
}
use clickman.Base.Int.{ℤ, pos}
use clickman.Base.Text.{Text, text_eq, as_bytes}
use clickman.Protocol.Batch.{Limits, default_limits}
use clickman.Protocol.Sanitize.{default_fragments, sanitizer, default_sanitizer}
use clickman.Ingest.Limiter.{RateLimit, default_limit}

pub record PublishedKey : Type 0 where
  pub name : Text
  pub digest : Text

pub record Published : Type 0 where
  pub write_keys : List PublishedKey
  pub fragments : List Text
  pub max_event_age_days : ℤ
  pub rate_limit : RateLimit

-- What stands where a field is not published.
abbrev pub default_published : Published
default_published = record {
  write_keys = [];
  fragments = default_fragments;
  max_event_age_days = pos 90;
  rate_limit = default_limit;
}

-- The sources by the digest of their key, the one published last first.
pub record Settings : Type 0 where
  pub sources : List (Text × Text)
  pub fragments : List Text
  pub limits : Limits
  pub rate_limit : RateLimit

unfoldable pub source : List (Text × Text) → Text → Option Text
source [] key = none
source ((k, name) ∷ sources) key = if text_eq k key then some name else source sources key

module _ (to_lowercase : Text → Text) where
  -- `collect` into a `HashMap`: a later entry of the same key replaces an earlier one.
  unfoldable pub collect : List PublishedKey → List (Text × Text) → List (Text × Text)
  collect [] sources = sources
  collect (key ∷ keys) sources = collect keys ((to_lowercase key.digest, key.name) ∷ sources)

  -- `Settings::empty`
  unfoldable pub empty : Settings
  empty = record {
    sources = [];
    fragments = default_sanitizer to_lowercase;
    limits = default_limits;
    rate_limit = default_limit;
  }

  unfoldable pub from_published : (ℤ → Option ℤ) → Published → Option Settings
  unfolding collect
  from_published duration_days published = elim (duration_days published.max_event_age_days) [
    | none ↦ none
    | some age ↦ some (record {
      sources = collect published.write_keys [];
      fragments = sanitizer to_lowercase published.fragments;
      limits = record default_limits { max_event_age = age };
      rate_limit = published.rate_limit;
    })
  ]

-- `{:02x}` of each byte
abbrev pub hex_digit : ℕ → ℕ
hex_digit n = if ltb n 10 then b'0' + n else b'a' + (n - 10)

unfoldable pub hex : List ℕ → Text
hex [] = []
hex (byte ∷ bytes) = hex_digit (byte / 16) ∷ hex_digit (byte % 16) ∷ hex bytes

unfoldable pub digest : (List ℕ → List ℕ) → Text → Text
unfolding hex
digest sha256 key = hex (sha256 (as_bytes key))

unfoldable pub source_for : (List ℕ → List ℕ) → Settings → Text → Option Text
unfolding source digest
source_for sha256 settings write_key = source settings.sources (digest sha256 write_key)

-- The name of the last of the published keys with this digest, in lower case.
abbrev pub newest_name : (Text → Text) → Text → List PublishedKey → Option Text → Option Text
newest_name to_lowercase digest [] found = found
newest_name to_lowercase digest (key ∷ keys) found =
    newest_name to_lowercase digest keys
      (if text_eq (to_lowercase key.digest) digest then some key.name else found)

source-collect :
    (to_lowercase : Text → Text) (digest : Text) (keys : List PublishedKey)
    (sources : List (Text × Text))
    → source (collect to_lowercase keys sources) digest
      ≡ newest_name to_lowercase digest keys (source sources digest)
unfolding collect source
source-collect to_lowercase digest [] sources = refl
source-collect to_lowercase digest (key ∷ keys) sources =
    source-collect to_lowercase digest keys ((to_lowercase key.digest, key.name) ∷ sources)

-- A hexadecimal digit in lower case, and its value.
abbrev pub Digit : ℕ → ℕ → Type 0
Digit c n = ((n < 10) × (c ≡ 48 + n)) ⊎ ((10 ≤ n) × (n < 16) × (c ≡ 87 + n))

-- Two digits for each byte, the high one first.
unfoldable pub IsHex : List ℕ → Text → Type 0
IsHex [] [] = Unit {0}
IsHex (byte ∷ bytes) (c ∷ d ∷ s) =
    (high : ℕ) × (low : ℕ) × Digit c high × Digit d low × (high * 16 + low ≡ byte) × IsHex bytes s
IsHex _ _ = ⊥

hex_digit-Digit : (c n : ℕ) → Digit c n → hex_digit n ≡ c
hex_digit-Digit c n h = ground arith

hex-IsHex : (bytes : List ℕ) (s : Text) → IsHex bytes s → hex bytes ≡ s
unfolding hex IsHex
hex-IsHex [] [] h = refl
hex-IsHex [] (c ∷ s) h = absurd (h)
hex-IsHex (byte ∷ bytes) [] h = absurd (h)
hex-IsHex (byte ∷ bytes) (c ∷ []) h = absurd (h)
hex-IsHex (byte ∷ bytes) (c ∷ d ∷ s) (high, low, first, second, value, rest) =
    let small : low < 16 = ground arith in
    let over : byte / 16 ≡ high = omega arith in
    let under : byte % 16 ≡ low = omega arith in
    rw
      (
        over,
        under,
        hex_digit-Digit c high first,
        hex_digit-Digit d low second,
        hex-IsHex bytes s rest,
      )
      refl

-- With published settings, a write key belongs to the source whose digest, in lower case, is the hex SHA-256
-- of the key, two digits for each byte, the high one first and the letters in lower case; to the one
-- published last where several are; a key without one is unknown, and so is every key while nothing is
-- published.
pub source_for-from_published :
    (to_lowercase : Text → Text) (sha256 : List ℕ → List ℕ) (duration_days : ℤ → Option ℤ)
    (published : Published) (settings : Settings) (write_key hashed : Text)
    → from_published to_lowercase duration_days published ≡ some settings
    → IsHex (sha256 (as_bytes write_key)) hashed
    → (source_for sha256 settings write_key
        ≡ newest_name to_lowercase hashed published.write_keys none)
      × (source_for sha256 (empty to_lowercase) write_key ≡ none)
unfolding from_published source_for source empty digest
source_for-from_published to_lowercase sha256 duration_days published settings write_key hashed h
      hexed =
    let same = hex-IsHex (sha256 (as_bytes write_key)) hashed hexed in
    elim (Option-cases (duration_days published.max_event_age_days)) [
      | inl e ↦ absurd (ground arith)
      | inr (age, e) ↦
          let collected : settings.sources ≡ collect to_lowercase published.write_keys [] =
            ground arith in
          (
            ap (λ sources. source sources (digest sha256 write_key)) collected
                ∙ source-collect to_lowercase (digest sha256 write_key) published.write_keys []
                ∙ ap (λ text'. newest_name to_lowercase text' published.write_keys none) same,
            refl,
          )
    ]
