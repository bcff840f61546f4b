-- ===== src/Ingest/Settings/Table.antt =====
-- `Database::settings` of rust/crates/clickman-ingest/src/database.rs, and `SettingsCell::load` and
-- `current` of rust/crates/clickman-ingest/src/settings.rs: from the table `clickman_settings` to the
-- settings of a request. A value that is no JSON fails the query.
use clickman.Base.{
  ◌≡◌, refl, ap, ◌∙◌, true, false, Option, none, some, List, [], ◌∷◌, ◌++◌, All, if◌then◌else◌,
}
use clickman.Base.Int.{ℤ}
use clickman.Base.Text.{Text, text, text_eq}
use clickman.Json.{Value}
use clickman.Protocol.Outcome.{Outcome, ok, err, panic}
use clickman.Ingest.Settings.{Published, Settings}
use clickman.Ingest.Settings.Cell.{Query, fetch, replaced, reload}

-- A row of `clickman_settings`, whose `key` is its primary key.
pub record Setting : Type 0 where
  pub key : Text
  pub value : Option Value

abbrev pub value_of : Option Value → Query
value_of none = none
value_of (some value) = some (some value)

-- `SELECT value FROM clickman_settings WHERE key = 'ingest'`, of which at most one row is fetched.
unfoldable pub select : List Setting → Query
select [] = some none
select (setting ∷ settings) =
    if text_eq setting.key (text "ingest") then value_of setting.value else select settings

-- `Database::settings`, of a database that answers or not.
unfoldable pub published_in : Option (List Setting) → Query
unfolding select
published_in none = none
published_in (some settings) = select settings

-- The cell, of which clones share what it holds.
pub record SettingsCell : Type 0 where
  pub held : Settings

abbrev pub new : Settings → SettingsCell
new settings = record { held = settings }

-- What a request is given.
abbrev pub current : SettingsCell → Settings
current cell = cell.held

module _ (to_lowercase : Text → Text) (duration_days : ℤ → Option ℤ)
    (parse : Value → Option Published) where
  abbrev pub cell_of : Outcome Text Settings → Outcome Text SettingsCell
  cell_of (ok settings) = ok (new settings)
  cell_of (err e) = err e
  cell_of panic = panic

  -- `SettingsCell::load`
  unfoldable pub load : Option (List Setting) → Outcome Text SettingsCell
  unfolding published_in fetch
  load table = cell_of (fetch to_lowercase duration_days parse (published_in table))

  unfoldable pub reload_from :
      Option (List Setting) → SettingsCell → Outcome Text (Unit {0}) × SettingsCell
  unfolding published_in reload
  reload_from table cell =
      let (outcome, settings) =
        reload to_lowercase duration_days parse (published_in table) (current cell) in
      (outcome, new settings)

  -- The cell that a server would load, if it loads one.
  abbrev pub or_keep : Outcome Text SettingsCell → SettingsCell → SettingsCell
  or_keep (ok cell) kept = cell
  or_keep (err e) kept = kept
  or_keep panic kept = kept

  select-other :
      (before settings : List Setting)
      → All (λ s. text_eq s.key (text "ingest") ≡ false) before
      → select (before ++ settings) ≡ select settings
  unfolding select
  select-other [] settings h = refl
  select-other (s ∷ before) settings h = rw (h.0, select) (select-other before settings h.1)

  replaced-or_keep :
      (outcome : Outcome Text Settings) (cell : SettingsCell)
      → new (replaced to_lowercase duration_days parse outcome (current cell)).1
        ≡ or_keep (cell_of outcome) cell
  unfolding replaced
  replaced-or_keep (ok settings) cell = refl
  replaced-or_keep (err e) cell = refl
  replaced-or_keep panic cell = refl

  -- A reload has the settings that a server starting now would load, and keeps what it had where that
  -- fails. Which these are depends on the row `ingest` of the table only.
  pub reload_from-load :
      (before after : List Setting) (setting : Setting) (cell : SettingsCell)
      → All (λ s. text_eq s.key (text "ingest") ≡ false) before
      → text_eq setting.key (text "ingest") ≡ true
      → ((reload_from (some (before ++ setting ∷ after)) cell).1
          ≡ or_keep (load (some (before ++ setting ∷ after))) cell)
        × (load (some (before ++ setting ∷ after)) ≡ load (some (setting ∷ [])))
        × ((reload_from none cell).1 ≡ cell)
  unfolding reload_from load reload published_in
  reload_from-load before after setting cell others own = (
    replaced-or_keep (fetch to_lowercase duration_days parse _) cell,
    ap (λ query. cell_of (fetch to_lowercase duration_days parse query))
        (select-other before (setting ∷ after) others ∙ unfold select in rw own refl),
    unfold fetch replaced in refl,
  )
