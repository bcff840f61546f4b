-- ===== src/Client/Queue.antt =====
-- rust/crates/clickman/src/batch.rs, and the statements on `events` of
-- rust/crates/clickman/src/event.rs: the queue as rows in the order of `seq`.
pub mod Order
pub mod Trim
pub mod Taken
pub mod Take
pub mod Remove
use clickman.Base.{
  ℕ, zero, suc, ◌+◌, ◌≤◌, ◌≡◌, Bool, true, false, Option, none, some, List, [], ◌∷◌, ◌++◌, map,
  reverse, length, take, drop, keep, any, not, ◌||◌, ◌==◌, ltb, leb, if◌then◌else◌,
}
use clickman.Base.Int.{ℤ, pos, ltb_ℤ, leb_ℤ, saturating_sub}
use clickman.Base.Text.{Text, text, byte_length}
use clickman.Client.Clock.{millis}
use clickman.Client.Config.{Config}
use clickman.Client.Store.{Row, Database, sql_count}

-- `INSERT INTO events`: AUTOINCREMENT gives the number after the largest ever given.
unfoldable pub insert : ℤ → Text → Database → Database
insert created_at body db = record db {
  events = db.events ++ record { seq = suc db.sequence; created_at = created_at; body = body } ∷ [];
  sequence = suc db.sequence;
}

-- `DELETE FROM events WHERE …`
unfoldable pub delete : (Row → Bool) → Database → Database
delete p db = record db { events = keep (λ row. not (p row)) db.events }

abbrev pub mem_seq : ℕ → List Row → Bool
mem_seq seq = any (λ row. row.seq == seq)

-- Deletes the rows that `ORDER BY seq DESC LIMIT -1 OFFSET max_queue` selects.
unfoldable pub trim : ℕ → Database → Database
unfolding delete sql_count
trim max_queue db =
    delete (λ row. mem_seq row.seq (drop (sql_count max_queue) (reverse db.events))) db

pub record Batch : Type 0 where
  pub last_seq : ℕ
  pub bodies : List Text

pub data Urgency : Type 0 where
  due forced : Urgency

unfoldable pub joined : List Text → Text
joined [] = []
joined (body ∷ []) = body
joined (body ∷ bodies) = body ++ b',' ∷ joined bodies

-- `Batch::payload`
unfoldable pub payload : Batch → Text → Text
unfolding joined
payload batch sent_at =
    text "{\"sentAt\":\""
    ++ (sent_at ++ (text "\",\"batch\":[" ++ (joined batch.bodies ++ text "]}")))

-- The loop of `taken`: the bodies left, those taken and their bytes so far.
unfoldable pub taken_from : ℕ → ℕ → ℕ → List Text → ℕ
taken_from max_bytes index joined [] = 0
taken_from max_bytes index joined (body ∷ bodies) =
    let bytes = joined + (byte_length body + (if ltb 0 index then 1 else 0)) in
    let rest = taken_from max_bytes (suc index) bytes bodies in
    if index == 0 || leb bytes max_bytes then suc rest else 0

unfoldable pub taken : List Text → ℕ → ℕ → ℕ
unfolding taken_from
taken bodies max_events max_bytes = taken_from max_bytes 0 0 (take max_events bodies)

-- `rows.last()`
unfoldable pub last : {A : Type 0} → List A → Option A
last [] = none
last (a ∷ []) = some a
last (a ∷ as') = last as'

abbrev pub bodies_of : List Row → List Text
bodies_of = map (λ row. row.body)

-- `Batch::cut`
unfoldable pub cut : List Row → Config → Option Batch
unfolding taken last
cut rows config =
    let cut_rows =
      take (taken (bodies_of rows) config.max_batch_events config.max_batch_bytes) rows in
    elim (last cut_rows) [
      | none ↦ none
      | some row ↦ some (record { last_seq = row.seq; bodies = bodies_of cut_rows })
    ]

unfoldable pub purge : ℤ → Database → Database
unfolding delete
purge created_before = delete (λ row. ltb_ℤ row.created_at created_before)

-- `min(created_at)`
unfoldable pub min_created_at : List Row → Option ℤ
min_created_at [] = none
min_created_at (row ∷ rows) = elim (min_created_at rows) [
  | none ↦ some row.created_at
  | some t ↦ if ltb_ℤ t row.created_at then some t else some row.created_at
]

unfoldable pub is_due : Config → ℤ → Urgency → Database → Bool
unfolding min_created_at
is_due config now urgency db = elim (min_created_at db.events) [
  | none ↦ false
  | some oldest ↦ elim urgency [
    | forced ↦ true
    | due ↦
        leb config.flush_at (length db.events)
        || leb_ℤ (millis config.flush_interval) (saturating_sub now oldest)
  ]
]

-- `ORDER BY seq LIMIT max_events`
unfoldable pub oldest : ℕ → Database → List Row
unfolding sql_count
oldest max_events db = take (sql_count max_events) db.events

-- The rest of `batch::take`, after the purge.
unfoldable pub take_due : Config → ℤ → Urgency → Database → Option Batch
unfolding is_due oldest cut
take_due config now urgency db =
    if is_due config now urgency db then cut (oldest config.max_batch_events db) config else none

-- `batch::take`, which no error ends.
unfoldable pub take_batch : Config → ℤ → Urgency → Database → Option Batch × Database
unfolding purge take_due
take_batch config now urgency db =
    let kept = purge (saturating_sub now (millis config.max_age)) db in
    (take_due config now urgency kept, kept)

-- `DELETE FROM events WHERE seq < ?1`
unfoldable pub remove : Batch → Database → Database
unfolding delete
remove batch = delete (λ row. ltb row.seq batch.last_seq)

unfoldable pub pending : Database → ℕ
pending db = length db.events
