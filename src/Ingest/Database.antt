-- ===== src/Ingest/Database.antt =====
-- `insert` of rust/crates/clickman-ingest/src/database.rs: what its one statement does to the table
-- `clickman_events`, whose `message_id` is unique. PostgreSQL and SQLite are given the same rows in
-- the same order, so the model has one of them. The statement as a whole may fail, which `App` has.
pub mod Laws
pub mod Grown
pub mod Commute
pub mod Times
pub mod Drivers
use clickman.Base.{
  ℕ, suc, ◌+◌, ◌%◌, ◌/◌, Bool, true, false, ◌||◌, List, [], ◌∷◌, ◌++◌, any, ◌==◌, if◌then◌else◌,
}
use clickman.Base.Int.{ℤ}
use clickman.Base.Text.{Text, text}
use clickman.Base.Decimal.{padded}
use clickman.Json.{Fields}
use clickman.Protocol.Batch.{Event}

pub record Row : Type 0 where
  pub message_id : ℕ
  pub occurred_at : ℤ
  pub received_at : ℤ
  pub external_id : Text
  pub event : Text
  pub properties : Fields
  pub context : Fields

abbrev pub row_of : ℤ → Event → Row
row_of received_at event = record {
  message_id = event.message_id;
  occurred_at = event.occurred_at;
  received_at = received_at;
  external_id = event.external_id;
  event = event.event;
  properties = event.properties;
  context = event.context;
}

unfoldable pub has_id : ℕ → List Row → Bool
has_id id rows = any (λ row. row.message_id == id) rows

-- `ON CONFLICT (message_id) DO NOTHING`, for one row.
unfoldable pub insert_row : Row → List Row → List Row
unfolding has_id
insert_row row rows = if has_id row.message_id rows then rows else rows ++ row ∷ []

-- The rows of a batch in turn, and how many of them were new.
unfoldable pub insert : List Event → ℤ → List Row → ℕ × List Row
unfolding insert_row
insert [] received_at rows = (0, rows)
insert (event ∷ events) received_at rows =
    let (n, after) = insert events received_at (insert_row (row_of received_at event) rows) in
    (if has_id event.message_id rows then n else suc n, after)
