-- ===== src/Ingest/Database/Drivers.antt =====
-- `insert_postgres` and `insert_sqlite` of rust/crates/clickman-ingest/src/database.rs: how each binds a
-- batch to its statement, and the rows that the statement reads of what is bound. PostgreSQL is given a
-- column of each field; SQLite a row of placeholders for each event and the values of all rows in one
-- list, the ids and the times as texts. `hyphenated` is the text of a UUID, and `stamp_of` reads the fields
-- of a time off it.
pub mod Agree
use mathlib.Core.List.{append_assoc}
use clickman.Base.{
  ℕ, zero, suc, ◌+◌, ◌*◌, ◌≤◌, ◌≡◌, refl, sym, ap, ◌∙◌, Bool, true, false, ◌||◌, List, [], ◌∷◌,
  ◌++◌, map, any, length, length-append, keep, keep-append, ◌==◌, if◌then◌else◌, Bool-cases, inl,
  inr, arith,
}
use clickman.Base.Int.{ℤ}
use clickman.Base.Text.{Text, text, text_eq}
use clickman.Json.{Fields}
use clickman.Protocol.Batch.{Event}
use clickman.Ingest.Database.{Row, row_of, has_id, insert_row, insert}
use clickman.Ingest.Database.Times.{Stamp, active_record_time}

-- `ON CONFLICT … DO NOTHING` for the rows of a statement in turn, and how many of them are inserted,
-- where two rows clash as the test says.
unfoldable pub insert_all {ℓ} : {R : Type ℓ} → (R → R → Bool) → List R → List R → ℕ × List R
insert_all same [] rows = (0, rows)
insert_all same (row ∷ new) rows =
    let clash = any (λ r. same r row) rows in
    let (n, after) = insert_all same new (if clash then rows else rows ++ row ∷ []) in
    (if clash then n else suc n, after)

-- The arrays that PostgreSQL is given.
pub record Columns : Type 0 where
  pub message_ids : List ℕ
  pub occurred_at : List ℤ
  pub external_ids : List Text
  pub names : List Text
  pub properties : List Fields
  pub contexts : List Fields

unfoldable pub columns : List Event → Columns
columns events = record {
  message_ids = map (λ e. e.message_id) events;
  occurred_at = map (λ e. e.occurred_at) events;
  external_ids = map (λ e. e.external_id) events;
  names = map (λ e. e.event) events;
  properties = map (λ e. e.properties) events;
  contexts = map (λ e. e.context) events;
}

-- `SELECT … FROM UNNEST(…)`, of arrays of one length.
unfoldable pub unnest :
    ℤ → List ℕ → List ℤ → List Text → List Text → List Fields → List Fields → List Row
unnest received_at (id ∷ ids) (at ∷ ats) (external ∷ externals) (name ∷ names) (p ∷ ps) (c ∷ cs) =
    record {
      message_id = id;
      occurred_at = at;
      received_at = received_at;
      external_id = external;
      event = name;
      properties = p;
      context = c;
    }
    ∷ unnest received_at ids ats externals names ps cs
unnest received_at _ _ _ _ _ _ = []

abbrev pub same_id : Row → Row → Bool
same_id a b = a.message_id == b.message_id

-- What PostgreSQL keeps of a row: a `timestamptz` is in microseconds, and a `jsonb` has an order of keys of
-- its own. Both conversions are PostgreSQL's.
module _ (timestamptz : ℤ → ℤ) (jsonb : Fields → Fields) where
  abbrev pub kept : Row → Row
  kept row = record row {
    occurred_at = timestamptz row.occurred_at;
    received_at = timestamptz row.received_at;
    properties = jsonb row.properties;
    context = jsonb row.context;
  }

  unfoldable pub insert_postgres : List Event → ℤ → List Row → ℕ × List Row
  unfolding columns unnest insert_all
  insert_postgres events received_at rows =
      let c = columns events in
      insert_all same_id
        (map kept (
          unnest received_at c.message_ids c.occurred_at c.external_ids c.names c.properties
            c.contexts))
        rows

pub data Value : Type 0 where
  string : Text → Value
  json : Fields → Value

pub record SqliteRow : Type 0 where
  pub message_id : Text
  pub occurred_at : Text
  pub received_at : Text
  pub external_id : Text
  pub event : Text
  pub properties : Fields
  pub context : Fields

abbrev pub placeholder : Text
placeholder = text "(?, ?, ?, ?, ?, ?, ?)"

-- `join(", ")` of as many placeholders as there are events
unfoldable pub placeholders : List Event → Text
placeholders [] = []
placeholders (event ∷ []) = placeholder
placeholders (event ∷ next ∷ events) = placeholder ++ (text ", " ++ placeholders (next ∷ events))

-- The rows that the placeholders are filled with, from the values in turn.
unfoldable pub filled : List Value → List SqliteRow
filled
      (string id
        ∷ string at
        ∷ string received_at
        ∷ string external_id
        ∷ string event
        ∷ json p
        ∷ json c
        ∷ values) =
    record {
      message_id = id;
      occurred_at = at;
      received_at = received_at;
      external_id = external_id;
      event = event;
      properties = p;
      context = c;
    }
    ∷ filled values
filled _ = []

abbrev pub same_text : SqliteRow → SqliteRow → Bool
same_text a b = text_eq a.message_id b.message_id

module _ (hyphenated : ℕ → Text) (stamp_of : ℤ → Stamp) where
  abbrev pub time_text : ℤ → Text
  time_text t = active_record_time (stamp_of t)

  -- What the loop binds.
  unfoldable pub bound : Text → List Event → List Value
  bound received_at [] = []
  bound received_at (event ∷ events) =
      string (hyphenated event.message_id)
      ∷ string (time_text event.occurred_at)
      ∷ string received_at
      ∷ string event.external_id
      ∷ string event.event
      ∷ json event.properties
      ∷ json event.context
      ∷ bound received_at events

  unfoldable pub insert_sqlite : List Event → ℤ → List SqliteRow → ℕ × List SqliteRow
  unfolding bound filled insert_all
  insert_sqlite events received_at rows =
      insert_all same_text (filled (bound (time_text received_at) events)) rows

  -- A row of the table as SQLite has it.
  abbrev pub encode : Row → SqliteRow
  encode row = record {
    message_id = hyphenated row.message_id;
    occurred_at = time_text row.occurred_at;
    received_at = time_text row.received_at;
    external_id = row.external_id;
    event = row.event;
    properties = row.properties;
    context = row.context;
  }
