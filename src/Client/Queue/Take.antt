-- ===== src/Client/Queue/Take.antt =====
-- The batch that `take` takes: the oldest events that are not past their age.
use clickman.Base.{
  ℕ, zero, suc, ◌≤◌, ◌<◌, ◌-◌, ◌≡◌, refl, ◌∙◌, ap, inl, inr, true, none, some, List, [], ◌∷◌,
  length, take, arith, Bool-cases, Option-cases, if◌then◌else◌, length-take_le, length-take,
  length-map, take-take, sym, ◌≢◌,
}
use clickman.Base.Int.{ℤ, saturating_sub, ltb_ℤ}
use clickman.Client.Clock.{millis}
use clickman.Client.Config.{Config}
use clickman.Client.Store.{Row, Database, sql_count}
use clickman.Client.Queue.Taken.{taken-le, taken_exact}
use clickman.Client.Queue.{
  Batch, Urgency, forced, min_created_at, purge, is_due, oldest, cut, last, taken, bodies_of,
  take_batch, take_due,
}

-- A batch of the first `n` rows, `row` being the last of them.
pub record IsPrefix (rows : List Row) (batch : Batch) (n : ℕ) (row : Row) : Type 0 where
  pub is_last : last (take n rows) ≡ some row
  pub last_seq : batch.last_seq ≡ row.seq
  pub bodies : batch.bodies ≡ bodies_of (take n rows)

cut-some :
    (rows : List Row) (config : Config) (n : ℕ) (batch : Batch)
    → taken (bodies_of rows) config.max_batch_events config.max_batch_bytes ≡ n
    → cut rows config ≡ some batch
    → (row : Row) × IsPrefix rows batch n row
unfolding cut
cut-some rows config n batch e h = elim (Option-cases (last (take n rows))) [
  | inl nothing ↦ absurd (ground arith)
  | inr (row, found) ↦ (row, ground arith)
]

-- The kept rows of which `oldest` selects the first.
IsPrefix-take :
    (n m : ℕ) (rows : List Row) (batch : Batch) (row : Row)
    → n ≤ m
    → IsPrefix (take m rows) batch n row
    → IsPrefix rows batch n row
IsPrefix-take n m rows batch row h p =
    let e = take-take n m rows h in
    record {
      is_last = ap last (sym e) ∙ p.is_last;
      last_seq = p.last_seq;
      bodies = p.bodies ∙ ap bodies_of e;
    }

last-ne-none : (n : ℕ) (row : Row) (rows : List Row) → last (take (suc n) (row ∷ rows)) ≢ none
unfolding last
last-ne-none zero row rows h = cc
last-ne-none (suc n) row [] h = cc
last-ne-none (suc n) row (next ∷ rows) h = last-ne-none n next rows h

module _ (config : Config) (now : ℤ) (urgency : Urgency) where
  -- How many events of a queue a batch has.
  abbrev pub count : Database → ℕ
  count db =
      taken (bodies_of (oldest config.max_batch_events db)) config.max_batch_events
        config.max_batch_bytes

  count-le : (db : Database) → count db ≤ sql_count config.max_batch_events
  unfolding oldest
  count-le db = omega (
    arith,
    taken-le (bodies_of (oldest config.max_batch_events db)) config.max_batch_events
        config.max_batch_bytes,
    length-map (oldest config.max_batch_events db) (λ row. row.body),
    length-take_le (sql_count config.max_batch_events) db.events,
  )

  pub count-le-length : (db : Database) → count db ≤ length db.events
  unfolding oldest
  count-le-length db = omega (
    arith,
    taken-le (bodies_of (oldest config.max_batch_events db)) config.max_batch_events
        config.max_batch_bytes,
    length-map (oldest config.max_batch_events db) (λ row. row.body),
    length-take (sql_count config.max_batch_events) db.events,
  )

  pub take_due_oldest :
      (db : Database) (batch : Batch)
      → take_due config now urgency db ≡ some batch
      → (is_due config now urgency db ≡ true)
        × (count db ≤ config.max_batch_events)
        × ((row : Row) × IsPrefix db.events batch (count db) row)
  unfolding take_due
  take_due_oldest db batch h = elim (Bool-cases (is_due config now urgency db)) [
    | inl yes' ↦
        let found : cut (oldest config.max_batch_events db) config ≡ some batch = ground arith in
        let (row, p) = cut-some _ config (count db) batch refl found in
        (
          yes',
          (taken-le _ config.max_batch_events config.max_batch_bytes).0,
          (
            row,
            IsPrefix-take (count db) (sql_count config.max_batch_events) db.events batch row
                (count-le db) p,
          ),
        )
    | inr not' ↦ absurd (ground arith)
  ]

  -- A batch is taken only when one is due after the purge, and it is the oldest of the events that
  -- the purge leaves, `count` of them and at most `max_batch_events`, with the number of the newest.
  pub take_batch_oldest :
      (db : Database) (batch : Batch)
      → (take_batch config now urgency db).0 ≡ some batch
      → let kept = (take_batch config now urgency db).1 in
        (is_due config now urgency kept ≡ true)
        × (count kept ≤ config.max_batch_events)
        × ((row : Row) × IsPrefix kept.events batch (count kept) row)
  unfolding take_batch
  take_batch_oldest db batch h =
      take_due_oldest (purge (saturating_sub now (millis config.max_age)) db) batch h

min_created_at-cons :
    (row : Row) (rows : List Row) → (t : ℤ) × (min_created_at (row ∷ rows) ≡ some t)
unfolding min_created_at
min_created_at-cons row rows = elim (Option-cases (min_created_at rows)) [
  | inl e ↦ (row.created_at, rw e)
  | inr (t, e) ↦ (if ltb_ℤ t row.created_at then t else row.created_at, ground arith)
]

cut_of_last :
    (rows : List Row) (config : Config) (n : ℕ) (row : Row)
    → taken (bodies_of rows) config.max_batch_events config.max_batch_bytes ≡ n
    → last (take n rows) ≡ some row
    → cut rows config ≡ some (record { last_seq = row.seq; bodies = bodies_of (take n rows) })
unfolding cut
cut_of_last rows config n row e h = ground arith

module _ (config : Config) (now : ℤ) (pos_events : 0 < config.max_batch_events) where
  -- A queue that is not empty has a first row, so a limit of one event or more takes one.
  cut-cons :
      (row : Row) (rows : List Row) → (batch : Batch) × (cut (row ∷ rows) config ≡ some batch)
  cut-cons row rows = elim (Option-cases (last (take (suc (n - 1)) (row ∷ rows)))) [
    | inl nothing ↦ absurd (last-ne-none (n - 1) row rows nothing)
    | inr (r, found) ↦ (
      record { last_seq = r.seq; bodies = bodies_of (take (suc (n - 1)) (row ∷ rows)) },
      cut_of_last (row ∷ rows) config (suc (n - 1)) r some_taken found,
    )
  ]
    where
      n : ℕ
      n = taken (bodies_of (row ∷ rows)) config.max_batch_events config.max_batch_bytes

      some_taken : n ≡ suc (n - 1)
      some_taken = omega (
        arith,
        (taken_exact (bodies_of (row ∷ rows)) config.max_batch_events config.max_batch_bytes
            (λ e. cc) pos_events).0,
      )

  is_due-forced :
      (db : Database) (t : ℤ)
      → min_created_at db.events ≡ some t
      → is_due config now forced db ≡ true
  unfolding is_due
  is_due-forced db t h = ground arith

  forced_batch :
      (rows : List Row) (db : Database)
      → db.events ≡ rows
      → rows ≢ []
      → (batch : Batch) × (take_due config now forced db ≡ some batch)
  unfolding take_due
  forced_batch [] db e ne = absurd (ne refl)
  forced_batch (row ∷ rows) db e ne =
      let m = sql_count config.max_batch_events - 1 in
      let sized : sql_count config.max_batch_events ≡ suc m = omega arith in
      let (t, oldest_is) = min_created_at-cons row rows in
      let (batch, found) = cut-cons row (take m rows) in
      let chosen : oldest config.max_batch_events db ≡ row ∷ take m rows =
        ap (take (sql_count config.max_batch_events)) e ∙ ap (λ k. take k (row ∷ rows)) sized in
      (
        batch,
        rw (is_due-forced db t (ap min_created_at e ∙ oldest_is))
            (ap (λ rs. cut rs config) chosen ∙ found),
      )

  -- Where a batch may hold an event at all, a flush always has a batch to send if the purge leaves
  -- an event.
  pub take_batch_forced :
      (db : Database)
      → (take_batch config now forced db).1.events ≢ []
      → (batch : Batch) × ((take_batch config now forced db).0 ≡ some batch)
  unfolding take_batch
  take_batch_forced db ne =
      forced_batch _ (purge (saturating_sub now (millis config.max_age)) db) refl ne
