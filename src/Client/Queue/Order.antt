-- ===== src/Client/Queue/Order.antt =====
-- The order of the queue: `seq` ascends along the rows and stays within the sequence, whatever the
-- statements do.
use clickman.Base.{
  ℕ, suc, ◌≤◌, ◌<◌, Bool, List, [], ◌∷◌, ◌++◌, keep, All, All-append, All-keep, arith, Bool-cases,
  inl, inr,
}
use clickman.Base.Int.{ℤ}
use clickman.Base.Text.{Text}
use clickman.Client.Config.{Config}
use clickman.Client.Store.{Row, Database}
use clickman.Client.Queue.{Batch, Urgency, insert, delete, trim, purge, take_batch, remove}

-- Each `seq` is above the one before it, and the first above `n`.
abbrev pub Ascending : ℕ → List Row → Type 0
Ascending n [] = Unit {0}
Ascending n (row ∷ rows) = (n < row.seq) × Ascending row.seq rows

abbrev pub Within : ℕ → List Row → Type 0
Within n = All (λ row. row.seq ≤ n)

pub record IsOrdered (db : Database) : Type 0 where
  pub ascending : Ascending 0 db.events
  pub within : Within db.sequence db.events

pub Ascending-mono : {m n : ℕ} (rows : List Row) → m ≤ n → Ascending n rows → Ascending m rows
Ascending-mono [] h a = tt
Ascending-mono (row ∷ rows) h a = (omega arith, a.1)

Within-mono : {m n : ℕ} (rows : List Row) → m ≤ n → Within m rows → Within n rows
Within-mono [] h w = tt
Within-mono {m} {n} (row ∷ rows) h w = (omega arith, Within-mono {m = m} {n = n} rows h w.1)

pub Ascending-keep :
    (p : Row → Bool) (n : ℕ) (rows : List Row) → Ascending n rows → Ascending n (keep p rows)
Ascending-keep p n [] a = tt
Ascending-keep p n (row ∷ rows) a = elim (Bool-cases (p row)) [
  | inl e ↦ rw e (a.0, Ascending-keep p row.seq rows a.1)
  | inr e ↦ rw e (
      Ascending-mono {m = n} {n = row.seq} (keep p rows) (omega arith)
        (Ascending-keep p row.seq rows a.1))
]

Ascending-append :
    (n m : ℕ) (rows : List Row) (row : Row)
    → n ≤ m
    → m < row.seq
    → Within m rows
    → Ascending n rows
    → Ascending n (rows ++ row ∷ [])
Ascending-append n m [] row h l w a = (omega arith, tt)
Ascending-append n m (r ∷ rows) row h l w a = (a.0, Ascending-append r.seq m rows row w.0 l w.1 a.1)

pub insert-IsOrdered :
    (at : ℤ) (body : Text) (db : Database) → IsOrdered db → IsOrdered (insert at body db)
unfolding insert
insert-IsOrdered at body db o = record {
  ascending =
      Ascending-append 0 db.sequence db.events _ (omega arith) (omega arith) o.within o.ascending;
  within =
      All-append (λ (row : Row). row.seq ≤ suc db.sequence) db.events _
        (Within-mono {m = db.sequence} {n = suc db.sequence} db.events (omega arith) o.within)
        (omega arith);
}

pub delete-IsOrdered : (p : Row → Bool) (db : Database) → IsOrdered db → IsOrdered (delete p db)
unfolding delete
delete-IsOrdered p db o = record {
  ascending = Ascending-keep _ 0 db.events o.ascending;
  within = All-keep (λ (row : Row). row.seq ≤ db.sequence) _ db.events o.within;
}

pub trim-IsOrdered : (n : ℕ) (db : Database) → IsOrdered db → IsOrdered (trim n db)
unfolding trim
trim-IsOrdered n db o = delete-IsOrdered _ db o

pub purge-IsOrdered : (t : ℤ) (db : Database) → IsOrdered db → IsOrdered (purge t db)
unfolding purge
purge-IsOrdered t db o = delete-IsOrdered _ db o

pub remove-IsOrdered : (batch : Batch) (db : Database) → IsOrdered db → IsOrdered (remove batch db)
unfolding remove
remove-IsOrdered batch db o = delete-IsOrdered _ db o

pub take_batch-IsOrdered :
    (config : Config) (now : ℤ) (urgency : Urgency) (db : Database)
    → IsOrdered db
    → IsOrdered (take_batch config now urgency db).1
unfolding take_batch
take_batch-IsOrdered config now urgency db o = purge-IsOrdered _ db o
