-- ===== src/Ingest/Database/Grown.antt =====
-- The table only grows.
use clickman.Base.{◌≡◌, refl, sym, ap, ◌∙◌, inl, inr, List, [], ◌∷◌, ◌++◌, Bool-cases}
use mathlib.Core.List.{append-nil, append_assoc}
use clickman.Base.Int.{ℤ}
use clickman.Protocol.Batch.{Event}
use clickman.Ingest.Database.{Row, row_of, has_id, insert_row, insert}

-- The rows of a table that a later one has too, in their place.
abbrev pub Grown : List Row → List Row → Type 0
Grown rows after = (more : List Row) × (after ≡ rows ++ more)

pub Grown-refl : (rows : List Row) → Grown rows rows
Grown-refl rows = ([], sym (append-nil rows))

pub Grown-trans : (a b c : List Row) → Grown a b → Grown b c → Grown a c
Grown-trans a b c (m, e) (n, e') = (m ++ n, e' ∙ ap (λ rows. rows ++ n) e ∙ append_assoc a m n)

insert_row-Grown : (row : Row) (rows : List Row) → Grown rows (insert_row row rows)
unfolding insert_row
insert_row-Grown row rows = elim (Bool-cases (has_id row.message_id rows)) [
  | inl e ↦ rw e (Grown-refl rows)
  | inr e ↦ rw e (row ∷ [], refl)
]

pub insert-Grown :
    (events : List Event) (t : ℤ) (rows : List Row) → Grown rows (insert events t rows).1
unfolding insert
insert-Grown [] t rows = Grown-refl rows
insert-Grown (event ∷ events) t rows =
    Grown-trans rows _ _ (insert_row-Grown (row_of t event) rows)
      (insert-Grown events t (insert_row (row_of t event) rows))
