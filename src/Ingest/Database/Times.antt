-- ===== src/Ingest/Database/Times.antt =====
-- `active_record_time` of rust/crates/clickman-ingest/src/database.rs: the text of a time in SQLite. The
-- fields of the time in UTC, which `OffsetDateTime` reads off it, are given.
use mathlib.Core.List.{append-nil}
use clickman.Base.{
  ℕ, ◌<◌, ◌≡◌, sym, ap, inl, inr, Bool-cases, ◌∙◌, Bool, [], ◌∷◌, ◌++◌, ltb, ◌==◌, if◌then◌else◌,
  arith,
}
use clickman.Base.Text.{Text}
use clickman.Base.Decimal.{padded}
use clickman.Base.Decimal.Order.{before, first, before-cons, before-padded}

pub record Stamp : Type 0 where
  pub year : ℕ
  pub month : ℕ
  pub day : ℕ
  pub hour : ℕ
  pub minute : ℕ
  pub second : ℕ
  pub microsecond : ℕ

abbrev pub fraction : ℕ → Text
fraction micros = if micros == 0 then [] else b'.' ∷ padded 6 micros

unfoldable pub active_record_time : Stamp → Text
active_record_time t =
    padded 4 t.year
    ++ (b'-' ∷ padded 2 t.month
        ++ (b'-' ∷ padded 2 t.day
            ++ (b' ' ∷ padded 2 t.hour
                ++ (b':' ∷ padded 2 t.minute
                    ++ (b':' ∷ padded 2 t.second ++ fraction t.microsecond)))))

-- A time in the years 0 to 9999.
pub record IsStamp (t : Stamp) : Type 0 where
  pub year : t.year < 10_000
  pub month : t.month < 100
  pub day : t.day < 100
  pub hour : t.hour < 100
  pub minute : t.minute < 100
  pub second : t.second < 100
  pub microsecond : t.microsecond < 1_000_000

-- The order of times, by their fields.
abbrev pub earlier : Stamp → Stamp → Bool
earlier a b = first a.year b.year (
    first a.month b.month (
      first a.day b.day (
        first a.hour b.hour
          (first a.minute b.minute (first a.second b.second (ltb a.microsecond b.microsecond))))))

padded-alone :
    (n m : ℕ) → n < 1_000_000 → m < 1_000_000 → before (padded 6 n) (padded 6 m) ≡ ltb n m
unfolding before
padded-alone n m hn hm =
    ap (λ s. before s (padded 6 m)) (sym (append-nil (padded 6 n)))
    ∙ ap (before (padded 6 n ++ [])) (sym (append-nil (padded 6 m)))
    ∙ before-padded 5 n m [] [] hn hm
    ∙ ground arith

before-fraction :
    (n m : ℕ) → n < 1_000_000 → m < 1_000_000 → before (fraction n) (fraction m) ≡ ltb n m
unfolding before
before-fraction n m hn hm = elim (Bool-cases (n == 0)) [
  | inl whole ↦ elim (Bool-cases (m == 0)) [
    | inl nothing ↦ rw (whole, nothing) (ground arith)
    | inr rest ↦ rw (whole, rest) (ground arith)
  ]
  | inr part ↦ elim (Bool-cases (m == 0)) [
    | inl nothing ↦ rw (part, nothing) (ground arith)
    | inr more ↦
        rw (part, more) (before-cons b'.' (padded 6 n) (padded 6 m) ∙ padded-alone n m hn hm)
  ]
]

-- Two times in the years 0 to 9999 that are written to SQLite compare as texts the way they compare as
-- times, up to the microsecond.
pub before-active_record_time :
    (a b : Stamp)
    → IsStamp a
    → IsStamp b
    → before (active_record_time a) (active_record_time b) ≡ earlier a b
unfolding active_record_time
before-active_record_time a b ha hb =
    before-padded 3 a.year b.year _ _ ha.year hb.year
    ∙ ap (first a.year b.year) (
        before-cons b'-' _ _
        ∙ before-padded 1 a.month b.month _ _ ha.month hb.month
        ∙ ap (first a.month b.month) (
            before-cons b'-' _ _
            ∙ before-padded 1 a.day b.day _ _ ha.day hb.day
            ∙ ap (first a.day b.day) (
                before-cons b' ' _ _
                ∙ before-padded 1 a.hour b.hour _ _ ha.hour hb.hour
                ∙ ap (first a.hour b.hour) (
                    before-cons b':' _ _
                    ∙ before-padded 1 a.minute b.minute _ _ ha.minute hb.minute
                    ∙ ap (first a.minute b.minute) (
                        before-cons b':' _ _
                        ∙ before-padded 1 a.second b.second _ _ ha.second hb.second
                        ∙ ap (first a.second b.second) (
                            before-fraction a.microsecond b.microsecond ha.microsecond
                              hb.microsecond))))))
