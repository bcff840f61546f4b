-- ===== src/Ingest/Schema.antt =====
-- rust/crates/clickman-ingest/src/schema.rs, with `connect` and `missing_tables` of
-- rust/crates/clickman-ingest/src/database.rs. An error is its outermost message. `Drivers` stands for
-- `sqlx`: what a database that it opens has of tables, as `to_regclass` or `sqlite_master` gives them.
use clickman.Base.{
  ℕ, ◌≡◌, refl, sym, ◌∙◌, ◌↔◌, inl, inr, Bool, true, false, not, Option, none, some, List, [], ◌∷◌,
  ◌++◌, any, keep, arith, if◌then◌else◌, Bool-cases, ◌==◌,
}
use clickman.Base.Text.{Text, text, text_eq}
use clickman.Protocol.Outcome.{Outcome, ok, err}

pub data Catalog : Type 0 where
  postgres : (Text → Bool) → Catalog
  sqlite : List Text → Catalog

pub record Drivers : Type 0 where
  pub sqlite_options : Text → Bool
  pub open_sqlite : Text → ℕ → Option (List Text)
  pub connect_postgres : Text → ℕ → Option (Text → Bool)

unfoldable pub starts_with : Text → Text → Bool
starts_with [] s = true
starts_with (p ∷ prefix) [] = false
starts_with (p ∷ prefix) (c ∷ s) = let rest = starts_with prefix s in if p == c then rest else false

abbrev pub as_catalog : {A : Type 0} → (A → Catalog) → Text → Option A → Outcome Text Catalog
as_catalog make message none = err message
as_catalog make message (some a) = ok (make a)

-- `Database::connect`
unfoldable pub connect : Drivers → Text → ℕ → Outcome Text Catalog
unfolding starts_with
connect drivers url pool_size =
    if starts_with (text "sqlite:") url
    then (if drivers.sqlite_options url
        then as_catalog sqlite (text "open the SQLite database") (drivers.open_sqlite url pool_size)
        else err (text "read the SQLite database URL"))
    else as_catalog postgres (text "connect to PostgreSQL") (drivers.connect_postgres url pool_size)

abbrev pub has_table : Catalog → Text → Bool
has_table (postgres exists) table = exists table
has_table (sqlite present) table = any (λ name. text_eq name table) present

-- `Database::missing_tables`
unfoldable pub missing_tables : List Text → Catalog → List Text
missing_tables tables catalog = keep (λ table. not (has_table catalog table)) tables

abbrev pub required_tables : List Text
required_tables = text "clickman_events" ∷ text "clickman_settings" ∷ []

-- `join(", ")`
unfoldable pub join : List Text → Text
join [] = []
join (name ∷ []) = name
join (name ∷ names) = name ++ (text ", " ++ join names)

abbrev pub missing_message : List Text → Text
missing_message names =
    text "the ClickMan schema is missing "
    ++ (join names ++ text "; run the host application's ClickMan migrations")

abbrev pub bail_unless_empty : List Text → Outcome Text (Unit {0})
bail_unless_empty [] = ok tt
bail_unless_empty (name ∷ names) = err (missing_message (name ∷ names))

-- `verify_schema`, where the query of the tables succeeds (`true`) or fails.
unfoldable pub verify_schema : Bool → Text → Catalog → Outcome Text (Unit {0})
unfolding missing_tables join
verify_schema true failed catalog = bail_unless_empty (missing_tables required_tables catalog)
verify_schema false failed catalog = err failed

abbrev pub has_events : Catalog → Bool
has_events catalog = has_table catalog (text "clickman_events")

abbrev pub has_settings : Catalog → Bool
has_settings catalog = has_table catalog (text "clickman_settings")

-- What the answer is, by whether the tables are there.
abbrev pub verdict : Bool → Bool → Outcome Text (Unit {0})
verdict true true = ok tt
verdict false true = err (missing_message (text "clickman_events" ∷ []))
verdict true false = err (missing_message (text "clickman_settings" ∷ []))
verdict false false = err (
    text
      "the ClickMan schema is missing clickman_events, clickman_settings; run the host application's ClickMan migrations")

verify_schema-verdict :
    (failed : Text) (catalog : Catalog)
    → verify_schema true failed catalog ≡ verdict (has_events catalog) (has_settings catalog)
unfolding verify_schema missing_tables join
verify_schema-verdict failed catalog = elim (Bool-cases (has_events catalog)) [
  | inl e ↦ elim (Bool-cases (has_settings catalog)) [
    | inl s ↦ rw (e, s) refl
    | inr s ↦ rw (e, s) refl
  ]
  | inr e ↦ elim (Bool-cases (has_settings catalog)) [
    | inl s ↦ rw (e, s) refl
    | inr s ↦ rw (e, s) refl
  ]
]

verdict-ok :
    (events settings : Bool) → verdict events settings ≡ ok tt → (events ≡ true) × (settings ≡ true)
verdict-ok true true h = (refl, refl)
verdict-ok true false h = absurd (ground arith)
verdict-ok false true h = absurd (ground arith)
verdict-ok false false h = absurd (ground arith)

-- The schema is verified if and only if the query of the tables succeeds and both tables are there.
-- If one of them is missing, the error names it, and both where both are.
pub verify_schema_exact :
    (works : Bool) (failed : Text) (catalog : Catalog)
    → ((verify_schema works failed catalog ≡ ok tt)
        ↔ ((works ≡ true) × (has_events catalog ≡ true) × (has_settings catalog ≡ true)))
      × (verify_schema true failed catalog ≡ verdict (has_events catalog) (has_settings catalog))
unfolding verify_schema
verify_schema_exact false failed catalog =
    ((λ h. absurd (ground arith), λ h. absurd (ground arith)), verify_schema-verdict failed catalog)
verify_schema_exact true failed catalog =
    let exact = verify_schema-verdict failed catalog in
    (
      (
        λ h. let (events, settings) = verdict-ok _ _ (sym exact ∙ h) in (refl, events, settings),
        λ h. exact ∙ rw (h.1, h.2) refl,
      ),
      exact,
    )
