-- ===== src/Client/Queue/Trim.antt =====
-- The statement that trims the queue keeps the newest events.
use mathlib.Core.List.{reverse-append, reverse-cons}
use clickman.Base.{
  ℕ, zero, suc, ◌+◌, ◌-◌, ◌≤◌, ◌<◌, ◌≡◌, refl, sym, ap, ◌∙◌, Bool, false, ◌||◌, not, List, [], ◌∷◌,
  ◌++◌, reverse, length, take, drop, keep, any, arith, inl, inr, Bool-cases, ◌==◌, min,
  length-append, length-drop, take-append-drop, drop_all, leb,
}
use clickman.Base.Int.{i64_max}
use clickman.Client.Store.{Row, Database, sql_count}
use clickman.Client.Queue.{delete, trim, mem_seq}
use clickman.Client.Queue.Order.{Ascending, IsOrdered}

module _ {ℓ} {A : Type ℓ} where
  any-append : (p : A → Bool) (xs ys : List A) → any p (xs ++ ys) ≡ (any p xs || any p ys)
  any-append p [] ys = refl
  any-append p (x ∷ xs) ys = ground (arith, any-append p xs ys)

  any-reverse : (p : A → Bool) (xs : List A) → any p (reverse xs) ≡ any p xs
  any-reverse p [] = refl
  any-reverse p (x ∷ xs) =
      rw (reverse-cons x xs, any-append p (reverse xs) (x ∷ []), any-reverse p xs) (ground arith)

  length-reverse : (xs : List A) → length (reverse xs) ≡ length xs
  length-reverse [] = refl
  length-reverse (x ∷ xs) =
      ap length (reverse-cons x xs)
      ∙ length-append (reverse xs) (x ∷ [])
      ∙ omega (arith, length-reverse xs)

  drop-append : (n : ℕ) (xs ys : List A) → length xs ≡ n → drop n (xs ++ ys) ≡ ys
  drop-append zero [] ys e = refl
  drop-append zero (x ∷ xs) ys e = absurd (omega arith)
  drop-append (suc n) [] ys e = absurd (omega arith)
  drop-append (suc n) (x ∷ xs) ys e = drop-append n xs ys (omega arith)

  -- The last rows of the reversed list are the first rows, reversed.
  drop-reverse :
      (k n : ℕ) (xs : List A) → length xs ≡ k + n → drop n (reverse xs) ≡ reverse (take k xs)
  drop-reverse k n xs e =
      ap (λ l. drop n (reverse l)) (sym (take-append-drop k xs))
      ∙ ap (drop n) (reverse-append (take k xs) (drop k xs))
      ∙ drop-append n (reverse (drop k xs)) (reverse (take k xs))
          (length-reverse (drop k xs) ∙ omega (arith, length-drop k xs))

-- No row of an ascending list has a number that is not above its bound.
mem_seq_below : (s n : ℕ) (rows : List Row) → Ascending n rows → s ≤ n → mem_seq s rows ≡ false
mem_seq_below s n [] a h = refl
mem_seq_below s n (row ∷ rows) a h = ground (arith, mem_seq_below s row.seq rows)

keep_suffix :
    (p : Row → Bool) (k n : ℕ) (rows : List Row)
    → Ascending n rows
    → ((row : Row) → n < row.seq → p row ≡ not (mem_seq row.seq (take k rows)))
    → keep p rows ≡ drop k rows
keep_suffix p k n [] a agree = drop_nil k
  where
    drop_nil : (j : ℕ) → ◌≡◌ {A = List Row} [] (drop j [])
    drop_nil zero = refl
    drop_nil (suc j) = refl
keep_suffix p zero n (row ∷ rows) a agree =
    rw (agree row a.0)
      (ap (◌∷◌ row) (keep_suffix p zero row.seq rows a.1 (λ r h. agree r (omega arith))))
keep_suffix p (suc k) n (row ∷ rows) a agree = ground (
  arith,
  agree row a.0,
  keep_suffix p k row.seq rows a.1 (λ r h. agree r (omega arith) ∙ ground arith),
)

-- The rows that the statement selects are the first ones.
mem_seq-selected :
    (s n : ℕ) (rows : List Row)
    → mem_seq s (drop n (reverse rows)) ≡ mem_seq s (take (length rows - n) rows)
mem_seq-selected s n rows = elim (Bool-cases (leb n (length rows))) [
  | inl le ↦
      ap (mem_seq s) (drop-reverse (length rows - n) n rows (ground arith))
      ∙ any-reverse (λ row. row.seq == s) (take (length rows - n) rows)
  | inr more ↦
      let short : length rows - n ≡ 0 = ground arith in
      rw (short, drop_all n (reverse rows) (ground (arith, length-reverse rows)))
]

-- In a queue in order, and with `max_queue` within `i64`, trimming drops rows from the old end
-- only, and leaves the newest `max_queue`, or all if there are no more than that.
pub trim-drop :
    (max_queue : ℕ) (db : Database)
    → IsOrdered db
    → max_queue ≤ i64_max
    → trim max_queue db ≡ record db { events = drop (length db.events - max_queue) db.events }
unfolding trim delete sql_count
trim-drop max_queue db o h =
    let e : min max_queue i64_max ≡ max_queue = omega arith in
    rw e (
      ap (λ rows. record db { events = rows })
        (keep_suffix _ (length db.events - max_queue) 0 db.events o.ascending
          (λ row _. ap not (mem_seq-selected row.seq max_queue db.events))))

-- So at most `max_queue` events are left.
pub length-trim :
    (max_queue : ℕ) (db : Database)
    → IsOrdered db
    → max_queue ≤ i64_max
    → length (trim max_queue db).events ≡ min max_queue (length db.events)
length-trim max_queue db o h =
    rw (trim-drop max_queue db o h)
      (omega (arith, length-drop (length db.events - max_queue) db.events))
