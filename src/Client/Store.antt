-- ===== src/Client/Store.antt =====
-- rust/crates/clickman/src/store.rs with the schema of protocol/queue.sql, which the crate embeds:
-- the SQLite file of the queue, its migration, and transactions. A table is the list of its rows by
-- primary key. Failures of SQLite itself are not modelled.
pub mod Migrate
pub mod Open
use clickman.Base.{ℕ, suc, Option, none, some, List, [], ◌∷◌, min, ◌^◌, ◌-◌}
use clickman.Base.Int.{ℤ, i64_max}
use clickman.Base.Text.{Text, text}
use clickman.Client.Error
use clickman.Client.Error.{Result, ok, err}

pub record Row : Type 0 where
  pub seq : ℕ
  pub created_at : ℤ
  pub body : Text

-- The one row of `identity`.
pub record Identity : Type 0 where
  pub external_id : Text
  pub traits : Text
  pub app_version : Option Text
  pub app_build : Option Text

-- A store of format 1. `sequence` is what AUTOINCREMENT remembers: the largest `seq` ever given.
pub record Database : Type 0 where
  pub events : List Row
  pub sequence : ℕ
  pub identity : Identity

-- The defaults of the columns, with which `INSERT OR IGNORE` makes the row.
abbrev pub anonymous : Identity
anonymous = record {
  external_id = text "*";
  traits = text "{}";
  app_version = none;
  app_build = none;
}

abbrev pub empty : Database
empty = record { events = []; sequence = 0; identity = anonymous }

-- Work inside a transaction. One that fails has no effect, since it is never committed.
abbrev pub Tx : Type 0 → Type 0
Tx A = Database → Result (A × Database)

infixl 5 ◌>>=◌ ◌>>◌
unfoldable pub ◌>>=◌ : {A B : Type 0} → Tx A → (A → Tx B) → Tx B
◌>>=◌ work next db = elim (work db) [ err e ↦ err e | ok (a, db') ↦ next a db' ]

abbrev pub ◌>>◌ : {A B : Type 0} → Tx A → Tx B → Tx B
m >> n = m >>= λ _. n

unfoldable pub pure : {A : Type 0} → A → Tx A
pure a db = ok (a, db)

unfoldable pub fail : {A : Type 0} → Error.Error → Tx A
fail e db = err e

-- `Store::write`: the work is committed only when it succeeds.
unfoldable pub write : {A : Type 0} → Tx A → Database → Result A × Database
write work db = elim (work db) [ err e ↦ (err e, db) | ok (a, db') ↦ (ok a, db') ]

unfoldable pub read : {A : Type 0} → (Database → Result A) → Database → Result A
read work db = work db

-- `sql_count`: a count bound into SQL.
unfoldable pub sql_count : ℕ → ℕ
sql_count count = min count i64_max
