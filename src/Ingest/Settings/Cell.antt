-- ===== src/Ingest/Settings/Cell.antt =====
-- `SettingsCell`, `from_value` and `fetch` of rust/crates/clickman-ingest/src/settings.rs. An error is
-- its outermost message. The query of the published value fails (`none`), finds nothing or a value;
-- `parse` is how `serde` reads the value.
use clickman.Base.{◌≡◌, refl, sym, ◌⊎◌, inl, inr, Option, none, some, arith}
use clickman.Base.Int.{ℤ}
use clickman.Base.Text.{Text, text}
use clickman.Json.{Value}
use clickman.Protocol.Outcome.{
  Outcome, ok, err, panic, ◌>>=◌, ok_or, or_panic, with-ok, or_panic-ok, ok-inj,
}
use clickman.Ingest.Settings.{Published, Settings, empty, from_published}

abbrev pub Query : Type 0
Query = Option (Option Value)

module _ (to_lowercase : Text → Text) (duration_days : ℤ → Option ℤ)
    (parse : Value → Option Published) where
  -- `Settings::from_value`
  unfoldable pub from_value : Value → Outcome Text Settings
  unfolding ◌>>=◌
  from_value value = do
    published ← ok_or (text "the published ingest settings are malformed") (parse value)
    or_panic (from_published to_lowercase duration_days published)

  unfoldable pub fetch : Query → Outcome Text Settings
  unfolding from_value
  fetch none = err (text "read clickman_settings")
  fetch (some (some value)) = from_value value
  fetch (some none) = ok (empty to_lowercase)

  unfoldable pub replaced : Outcome Text Settings → Settings → Outcome Text (Unit {0}) × Settings
  replaced (ok settings) current = (ok tt, settings)
  replaced (err e) current = (err e, current)
  replaced panic current = (panic, current)

  -- `SettingsCell::reload`: the settings are replaced once they are fetched.
  unfoldable pub reload : Query → Settings → Outcome Text (Unit {0}) × Settings
  unfolding fetch replaced
  reload query current = replaced (fetch query) current

  -- Settings that the engine has published, or those of nothing published.
  abbrev pub IsPublished : Settings → Type 0
  IsPublished settings =
      (settings ≡ empty to_lowercase)
      ⊎ ((published : Published) × (from_published to_lowercase duration_days published
            ≡ some settings))

  pub fetch-IsPublished :
      (query : Query) (settings : Settings) → fetch query ≡ ok settings → IsPublished settings
  unfolding fetch from_value
  fetch-IsPublished none settings h = absurd (ground arith)
  fetch-IsPublished (some none) settings h =
      inl (ok-inj {E = Text} settings (empty to_lowercase) (sym h))
  fetch-IsPublished (some (some value)) settings h =
      with-ok _ _ settings h (λ published read rest. inr (published, or_panic-ok _ settings rest))

  pub reload-IsPublished :
      (query : Query) (current : Settings)
      → IsPublished current
      → IsPublished (reload query current).1
  unfolding reload replaced
  reload-IsPublished query current h = go (fetch query) refl
    where
      go :
          (outcome : Outcome Text Settings)
          → fetch query ≡ outcome
          → IsPublished (replaced outcome current).1
      go (ok settings) e = fetch-IsPublished query settings e
      go (err message) e = h
      go panic e = h
