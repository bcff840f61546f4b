-- ===== src/Client/Queue/Remove.antt =====
-- What `remove` deletes of a batch that was taken.
use clickman.Base.{
  ℕ, zero, suc, ◌≤◌, ◌<◌, ◌≡◌, true, not, some, List, [], ◌∷◌, take, drop, keep, keep-All, All,
  length, arith, ltb,
}
use clickman.Client.Store.{Row, Database}
use clickman.Client.Queue.{Batch, last, remove}
use clickman.Client.Queue.Order.{Ascending, IsOrdered}
use clickman.Client.Queue.Take.{IsPrefix}

last_above :
    (n k : ℕ) (rows : List Row) (row : Row)
    → Ascending n rows
    → last (take k rows) ≡ some row
    → n < row.seq
unfolding last
last_above n zero rows row a h = absurd (ground arith)
last_above n (suc k) [] row a h = absurd (ground arith)
last_above n (suc zero) (r ∷ rows) row a h = ground arith
last_above n (suc (suc k)) (r ∷ []) row a h = ground arith
last_above n (suc (suc k)) (r ∷ r' ∷ rows) row a h =
    omega (arith, last_above r.seq (suc k) (r' ∷ rows) row a.1 h)

All-from :
    (n s : ℕ) (rows : List Row)
    → Ascending n rows
    → s ≤ suc n
    → All (λ (row : Row). not (ltb row.seq s) ≡ true) rows
All-from n s [] a h = tt
All-from n s (row ∷ rows) a h = (ground arith, All-from row.seq s rows a.1 (omega arith))

keep_from :
    (n k : ℕ) (rows : List Row) (row : Row)
    → Ascending n rows
    → k < length rows
    → last (take (suc k) rows) ≡ some row
    → keep (λ (r : Row). not (ltb r.seq row.seq)) rows ≡ drop k rows
unfolding last
keep_from n k [] row a l h = absurd (omega arith)
keep_from n zero (r ∷ rows) row a l h =
    keep-All (λ (r : Row). not (ltb r.seq row.seq)) (r ∷ rows)
      (ground arith, All-from r.seq row.seq rows a.1 (ground arith))
keep_from n (suc k) (r ∷ []) row a l h = absurd (omega arith)
keep_from n (suc k) (r ∷ r' ∷ rows) row a l h = ground (
  arith,
  last_above r.seq (suc k) (r' ∷ rows) row a.1 h,
  keep_from r.seq k (r' ∷ rows) row a.1 (omega arith) h,
)

-- From a queue in order, `remove` deletes the first `k` events of a batch of `k + 1`: the newest
-- event of the batch stays where it is, with all that was tracked after it.
pub remove_keeps_newest :
    (db : Database) (batch : Batch) (k : ℕ) (row : Row)
    → IsOrdered db
    → suc k ≤ length db.events
    → IsPrefix db.events batch (suc k) row
    → (remove batch db).events ≡ drop k db.events
unfolding remove
remove_keeps_newest db batch k row o l p =
    rw (p.last_seq) (keep_from 0 k db.events row o.ascending l p.is_last)
