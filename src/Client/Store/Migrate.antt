-- ===== src/Client/Store/Migrate.antt =====
-- `migrate`, `create` and `has_table` of rust/crates/clickman/src/store.rs, which run
-- protocol/queue.sql and protocol/queue-upgrade.sql on a file of any format.
use clickman.Base.{ℕ, zero, suc, ◌≡◌, refl, Option, none, some, List, [], ◌∷◌, arith, if◌then◌else◌}
use clickman.Base.Int.{ℤ, pos, negsuc}
use clickman.Base.Text.{Text, text, text_eq}
use clickman.Client.Error.{Result, ok, err, newer_store, unknown_store}
use clickman.Client.Store.{Row, Identity, Database, anonymous}

-- The table `state` of a format 0 store of the 0.1 core, by key.
abbrev pub State : Type 0
State = List (Text × Text)

-- What the file holds; `none` is a table, or the row of `identity`, that is not there.
pub record File : Type 0 where
  pub user_version : ℤ
  pub events : Option (List Row × ℕ)
  pub identity : Option Identity
  pub state : Option State

abbrev pub format : ℤ
format = pos 1

unfoldable pub value_for : Text → State → Option Text
value_for key [] = none
value_for key ((k, v) ∷ rest) = if text_eq k key then some v else value_for key rest

abbrev pub coalesce {ℓ} : {A : Type ℓ} → Option A → A → A
coalesce none a = a
coalesce (some b) a = b

-- protocol/queue.sql
unfoldable pub create_tables : File → File
create_tables file = record file {
  events = some (coalesce file.events ([], 0));
  identity = some (coalesce file.identity anonymous);
}

-- protocol/queue-upgrade.sql, whose UPDATE leaves the row's other columns none
abbrev pub upgraded : State → Identity
upgraded state = record {
  external_id = coalesce (value_for (text "external_id") state) (text "*");
  traits = coalesce (value_for (text "traits") state) (text "{}");
  app_version = value_for (text "app_version") state;
  app_build = value_for (text "app_build") state;
}

unfoldable pub upgrade : State → File → File
upgrade state file = record file { identity = some (upgraded state); state = none }

unfoldable pub create : File → File
unfolding create_tables upgrade
create file =
    let created = create_tables file in
    let adopted : File = elim file.state [ none ↦ created | some state ↦ upgrade state created ] in
    record adopted { user_version = format }

-- The match on the format.
unfoldable pub migrate_from : ℤ → File → Result File
unfolding create
migrate_from (pos zero) file = ok (create file)
migrate_from (pos (suc zero)) file = ok file
migrate_from (pos (suc (suc n))) file = err (newer_store (pos (suc (suc n))))
migrate_from (negsuc n) file = err (unknown_store (negsuc n))

unfoldable pub migrate : File → Result File
unfolding migrate_from
migrate file = migrate_from file.user_version file

-- The open store, if the file has its tables.
unfoldable pub opened : File → Option Database
opened file = elim file.events [
  | none ↦ none
  | some (events, sequence) ↦ elim file.identity [
    | none ↦ none
    | some identity ↦ some (record { events = events; sequence = sequence; identity = identity })
  ]
]

migrate_from-format :
    (v : ℤ) (file file' : File)
    → file.user_version ≡ v
    → migrate_from v file ≡ ok file'
    → file'.user_version ≡ format
unfolding migrate_from
migrate_from-format (pos zero) file file' e h = ground arith
migrate_from-format (pos (suc zero)) file file' e h = ground arith
migrate_from-format (pos (suc (suc n))) file file' e h = cc
migrate_from-format (negsuc n) file file' e h = cc

-- A file that was migrated is in the current format, and opening it again changes nothing.
pub migrate-migrate :
    (file file' : File)
    → migrate file ≡ ok file'
    → (file'.user_version ≡ format) × (migrate file' ≡ ok file')
unfolding migrate
migrate-migrate file file' h =
    let e = migrate_from-format file.user_version file file' refl h in
    (e, rw e (unfold migrate_from in refl))

-- Whom the events of an adopted store are about: what the old table says, with the defaults.
abbrev pub adopted_identity : File → Identity
adopted_identity file = elim file.state [
  | none ↦
      coalesce file.identity (record {
        external_id = text "*";
        traits = text "{}";
        app_version = none;
        app_build = none;
      })
  | some state ↦ record {
    external_id = elim (value_for (text "external_id") state) [ none ↦ text "*" | some s ↦ s ];
    traits = elim (value_for (text "traits") state) [ none ↦ text "{}" | some s ↦ s ];
    app_version = value_for (text "app_version") state;
    app_build = value_for (text "app_build") state;
  }
]
