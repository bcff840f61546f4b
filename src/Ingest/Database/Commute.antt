-- ===== src/Ingest/Database/Commute.antt =====
-- Two batches in either order.
use clickman.Base.{
  ℕ, suc, ◌+◌, ◌≤◌, ◌≡◌, refl, sym, ap, ◌∙◌, true, false, ◌&&◌, ◌||◌, not, List, [], ◌∷◌, length,
  keep, any, arith, ◌==◌, Bool-cases, inl, inr,
}
use clickman.Base.Int.{ℤ}
use clickman.Protocol.Batch.{Event}
use clickman.Ingest.Database.{Row, row_of, has_id, insert_row, insert}
use clickman.Ingest.Database.Laws.{Distinct, has_id-insert_row, insert-length, insert-Distinct}

-- The ids of a table after a batch.
has_id-insert :
    (events : List Event) (t : ℤ) (rows : List Row) (id : ℕ)
    → has_id id (insert events t rows).1 ≡ (has_id id rows || any (λ e. e.message_id == id) events)
unfolding insert
has_id-insert [] t rows id = ground arith
has_id-insert (e ∷ events) t rows id = ground (
  arith,
  has_id-insert events t (insert_row (row_of t e) rows) id,
  has_id-insert_row id (row_of t e) rows,
)

without : ℕ → List Row → List Row
without id rows = keep (λ row. not (row.message_id == id)) rows

has_id-without :
    (id other : ℕ) (rows : List Row)
    → has_id other (without id rows) ≡ (has_id other rows && not (other == id))
unfolding without has_id
has_id-without id other [] = refl
has_id-without id other (row ∷ rows) =
    let rest = has_id-without id other rows in
    elim (Bool-cases (row.message_id == id)) [
      | inl same ↦ rw same (rest ∙ ground arith)
      | inr apart ↦ rw apart (ground arith)
    ]

length-without-le : (id : ℕ) (rows : List Row) → length (without id rows) ≤ length rows
unfolding without
length-without-le id [] = omega arith
length-without-le id (row ∷ rows) = ground (arith, length-without-le id rows)

length-without :
    (id : ℕ) (rows : List Row)
    → has_id id rows ≡ true
    → suc (length (without id rows)) ≤ length rows
unfolding without has_id
length-without id [] h = absurd (ground arith)
length-without id (row ∷ rows) h = ground (arith, length-without-le id rows, length-without id rows)

apart_from :
    (id : ℕ) (x : Row) (xs : List Row)
    → has_id x.message_id xs ≡ false
    → has_id id xs ≡ true
    → id == x.message_id ≡ false
apart_from id x xs absent there = elim (Bool-cases (id == x.message_id)) [
  | inl same ↦
      let e : id ≡ x.message_id = ground arith in absurd (ground (arith, ap (λ n. has_id n xs) e))
  | inr apart ↦ apart
]

-- A table with no id twice whose ids are all in another is no longer than the other.
Distinct-le :
    (xs ys : List Row)
    → Distinct xs
    → ((id : ℕ) → has_id id xs ≡ true → has_id id ys ≡ true)
    → length xs ≤ length ys
unfolding Distinct has_id
Distinct-le [] ys d sub = omega arith
Distinct-le (x ∷ xs) ys d sub =
    let there : has_id x.message_id ys ≡ true = sub x.message_id (ground arith) in
    let rest = Distinct-le xs (without x.message_id ys) d.1 (λ id h.
      let known : has_id id ys ≡ true = sub id (ground arith) in
      let apart : id == x.message_id ≡ false = apart_from id x xs d.0 h in
      has_id-without x.message_id id ys ∙ rw (known, apart) refl) in
    omega (arith, length-without x.message_id ys there, rest)

same_ids :
    (xs ys : List Event) (t t' : ℤ) (rows : List Row) (id : ℕ)
    → has_id id (insert ys t' (insert xs t rows).1).1
      ≡ has_id id (insert xs t (insert ys t' rows).1).1
same_ids xs ys t t' rows id = ground (
  arith,
  has_id-insert ys t' (insert xs t rows).1 id,
  has_id-insert xs t rows id,
  has_id-insert xs t (insert ys t' rows).1 id,
  has_id-insert ys t' rows id,
)

same_counts :
    (xs ys : List Event) (t t' : ℤ) (rows : List Row)
    → length (insert ys t' (insert xs t rows).1).1 ≤ length (insert xs t (insert ys t' rows).1).1
    → length (insert xs t (insert ys t' rows).1).1 ≤ length (insert ys t' (insert xs t rows).1).1
    → (insert xs t rows).0 + (insert ys t' (insert xs t rows).1).0
      ≡ (insert ys t' rows).0 + (insert xs t (insert ys t' rows).1).0
same_counts xs ys t t' rows le ge = omega (
  arith,
  insert-length xs t rows,
  insert-length ys t' (insert xs t rows).1,
  insert-length ys t' rows,
  insert-length xs t (insert ys t' rows).1,
)

-- Into a table with no message id twice, two batches at any times may be stored in either order: the
-- same ids are there after both, and as many new events are counted.
pub insert_commutes :
    (xs ys : List Event) (t t' : ℤ) (rows : List Row) (id : ℕ)
    → Distinct rows
    → (has_id id (insert ys t' (insert xs t rows).1).1
        ≡ has_id id (insert xs t (insert ys t' rows).1).1)
      × ((insert xs t rows).0 + (insert ys t' (insert xs t rows).1).0
          ≡ (insert ys t' rows).0 + (insert xs t (insert ys t' rows).1).0)
insert_commutes xs ys t t' rows id d =
    let first = (insert ys t' (insert xs t rows).1).1 in
    let second = (insert xs t (insert ys t' rows).1).1 in
    (
      same_ids xs ys t t' rows id,
      same_counts xs ys t t' rows
          (Distinct-le first second (insert-Distinct ys t' _ (insert-Distinct xs t rows d))
            (λ n h. sym (same_ids xs ys t t' rows n) ∙ h))
          (Distinct-le second first (insert-Distinct xs t _ (insert-Distinct ys t' rows d))
            (λ n h. same_ids xs ys t t' rows n ∙ h)),
    )
