-- ===== src/Ingest/Database/Laws.antt =====
-- What a batch that is sent again does.
use mathlib.Core.List.{Memᴰ}
use mathlib.Core.List.Memᴰ.{head, tail}
use clickman.Base.{
  All-map, All-Mem, All-append, All-at, ◌⊎◌, ℕ, ◌+◌, ◌≤◌, ◌≡◌, refl, true, false, ◌||◌, List, [],
  ◌∷◌, ◌++◌, length, All, arith, if◌then◌else◌, ◌==◌, Bool-cases, inl, inr, length-append,
}
use clickman.Base.Int.{ℤ}
use clickman.Protocol.Batch.{Event}
use clickman.Ingest.Database.{Row, row_of, has_id, insert_row, insert}

-- No message id twice.
unfoldable pub Distinct : List Row → Type 0
unfolding has_id
Distinct [] = Unit {0}
Distinct (row ∷ rows) = (has_id row.message_id rows ≡ false) × Distinct rows

has_id-append : (id : ℕ) (xs ys : List Row) → has_id id (xs ++ ys) ≡ (has_id id xs || has_id id ys)
unfolding has_id
has_id-append id [] ys = refl
has_id-append id (x ∷ xs) ys = ground (arith, has_id-append id xs ys)

has_id-one : (id : ℕ) (row : Row) → has_id id (row ∷ []) ≡ row.message_id == id
unfolding has_id
has_id-one id row = ground arith

pub has_id-insert_row :
    (id : ℕ) (row : Row) (rows : List Row)
    → has_id id (insert_row row rows) ≡ (has_id id rows || row.message_id == id)
unfolding insert_row
has_id-insert_row id row rows = ground (arith, has_id-append id rows (row ∷ []), has_id-one id row)

length-insert_row :
    (row : Row) (rows : List Row)
    → length (insert_row row rows)
      ≡ (if has_id row.message_id rows then length rows else length rows + 1)
unfolding insert_row
length-insert_row row rows = ground (arith, length-append rows (row ∷ []))

append-Distinct :
    (rows : List Row) (row : Row)
    → Distinct rows
    → has_id row.message_id rows ≡ false
    → Distinct (rows ++ row ∷ [])
unfolding Distinct has_id
append-Distinct [] row d h = (refl, tt)
append-Distinct (x ∷ rows) row d h = (
  ground (arith, has_id-append x.message_id rows (row ∷ [])),
  append-Distinct rows row d.1 (ground arith),
)

insert_row-Distinct : (row : Row) (rows : List Row) → Distinct rows → Distinct (insert_row row rows)
unfolding insert_row
insert_row-Distinct row rows d = elim (Bool-cases (has_id row.message_id rows)) [
  | inl e ↦ rw e d
  | inr e ↦ rw e (append-Distinct rows row d e)
]

-- The table keeps the rows it has, and gets those that are counted as new.
pub insert-length :
    (events : List Event) (t : ℤ) (rows : List Row)
    → length (insert events t rows).1 ≡ length rows + (insert events t rows).0
unfolding insert
insert-length [] t rows = omega arith
insert-length (e ∷ events) t rows = ground (
  arith,
  insert-length events t (insert_row (row_of t e) rows),
  length-insert_row (row_of t e) rows,
)

pub insert-Distinct :
    (events : List Event) (t : ℤ) (rows : List Row)
    → Distinct rows
    → Distinct (insert events t rows).1
unfolding insert
insert-Distinct [] t rows d = d
insert-Distinct (e ∷ events) t rows d =
    insert-Distinct events t _ (insert_row-Distinct (row_of t e) rows d)

pub insert-le :
    (events : List Event) (t : ℤ) (rows : List Row) → (insert events t rows).0 ≤ length events
unfolding insert
insert-le [] t rows = omega arith
insert-le (e ∷ events) t rows = ground (arith, insert-le events t (insert_row (row_of t e) rows))

-- An id that is there stays, and those of the batch are there after it.
insert-keeps :
    (events : List Event) (t : ℤ) (rows : List Row) (id : ℕ)
    → has_id id rows ≡ true
    → has_id id (insert events t rows).1 ≡ true
unfolding insert
insert-keeps [] t rows id h = h
insert-keeps (e ∷ events) t rows id h =
    insert-keeps events t _ id (ground (arith, has_id-insert_row id (row_of t e) rows))

pub insert-stores :
    (events : List Event) (t : ℤ) (rows : List Row)
    → All (λ e. has_id e.message_id (insert events t rows).1 ≡ true) events
unfolding insert
insert-stores [] t rows = tt
insert-stores (e ∷ events) t rows = (
  insert-keeps events t _ e.message_id
      (ground (arith, has_id-insert_row e.message_id (row_of t e) rows)),
  insert-stores events t (insert_row (row_of t e) rows),
)

insert_stored :
    (events : List Event) (t : ℤ) (rows : List Row)
    → All (λ e. has_id e.message_id rows ≡ true) events
    → insert events t rows ≡ (0, rows)
unfolding insert insert_row
insert_stored [] t rows h = refl
insert_stored (e ∷ events) t rows h = rw h.0 (insert_stored events t rows h.1)

-- The row has what an event says, and when it was received.
pub record Tells (t : ℤ) (e : Event) (row : Row) : Type 0 where
  pub id : row.message_id ≡ e.message_id
  pub occurred : row.occurred_at ≡ e.occurred_at
  pub received : row.received_at ≡ t
  pub actor : row.external_id ≡ e.external_id
  pub name : row.event ≡ e.event
  pub properties : row.properties ≡ e.properties
  pub context : row.context ≡ e.context

-- A row that was there before, or that tells of one of the events.
abbrev pub Sourced : List Event → ℤ → List Row → Row → Type 0
Sourced events t rows row =
    Memᴰ row rows
    ⊎ ((e : Event) × Memᴰ e events × Tells t e row × (has_id row.message_id rows ≡ false))

row_of-Tells : (t : ℤ) (e : Event) → Tells t e (row_of t e)
row_of-Tells t e = record {
  id = refl;
  occurred = refl;
  received = refl;
  actor = refl;
  name = refl;
  properties = refl;
  context = refl;
}

has_id-false-insert_row :
    (id : ℕ) (row : Row) (rows : List Row)
    → has_id id (insert_row row rows) ≡ false
    → has_id id rows ≡ false
has_id-false-insert_row id row rows h = ground (arith, has_id-insert_row id row rows)

insert_row-Sourced :
    (events : List Event) (e : Event) (t : ℤ) (rows : List Row)
    → All (Sourced (e ∷ events) t rows) (insert_row (row_of t e) rows)
unfolding insert_row
insert_row-Sourced events e t rows =
    let old =
      All-map (λ row. Memᴰ row rows) (Sourced (e ∷ events) t rows) rows (λ row h. inl h)
        (All-Mem rows) in
    elim (Bool-cases (has_id e.message_id rows)) [
      | inl h ↦ rw h old
      | inr h ↦ rw h (
          All-append (Sourced (e ∷ events) t rows) rows (row_of t e ∷ []) old
            (inr (e, head refl, row_of-Tells t e, h), tt))
    ]

insert-Sourced :
    (events : List Event) (t : ℤ) (rows : List Row)
    → All (Sourced events t rows) (insert events t rows).1
unfolding insert
insert-Sourced [] t rows =
    All-map (λ row. Memᴰ row rows) (Sourced [] t rows) rows (λ row h. inl h) (All-Mem rows)
insert-Sourced (e ∷ events) t rows =
    let middle = insert_row (row_of t e) rows in
    All-map (Sourced events t middle) (Sourced (e ∷ events) t rows) (insert events t middle).1
      (λ row h. elim h [
        | inl before ↦
            All-at (Sourced (e ∷ events) t rows) middle row (insert_row-Sourced events e t rows)
              before
        | inr (later, there, tells, new) ↦
            inr (
              later,
              tail there,
              tells,
              has_id-false-insert_row row.message_id (row_of t e) rows new,
            )
      ])
      (insert-Sourced events t middle)

-- Into a table with no message id twice, a batch stores each message id once: the table has no id
-- twice after it, it has grown by the number of new events, and every event of the batch has a row. Each row
-- was there before, or is new and has the id, the times, the actor, the name, the properties and the context
-- of an event of the batch. Inserted again into the table as it then is, the same batch adds nothing.
pub insert_once :
    (events : List Event) (received_at again : ℤ) (rows : List Row)
    → Distinct rows
    → Distinct (insert events received_at rows).1
      × (length (insert events received_at rows).1
          ≡ length rows + (insert events received_at rows).0)
      × All (λ e. has_id e.message_id (insert events received_at rows).1 ≡ true) events
      × All (Sourced events received_at rows) (insert events received_at rows).1
      × (insert events again (insert events received_at rows).1
          ≡ (0, (insert events received_at rows).1))
insert_once events received_at again rows d = (
  insert-Distinct events received_at rows d,
  insert-length events received_at rows,
  insert-stores events received_at rows,
  insert-Sourced events received_at rows,
  insert_stored events again _ (insert-stores events received_at rows),
)
