-- ===== src/Ingest/Server/Origins.antt =====
-- Where the rows of the table come from.
use mathlib.Core.List.{Memᴰ}
use clickman.Base.{
  ℕ, ◌≡◌, refl, sym, ap, subst, ◌⊎◌, inl, inr, Option, none, some, List, [], ◌∷◌, All, All-append,
  All-map, All-Mem, Bool-cases,
}
use clickman.Base.Int.{ℤ}
use clickman.Base.Text.{Text}
use clickman.Json.{Value}
use clickman.Protocol.Outcome.{ok}
use clickman.Protocol.Batch.{Externals, Event, Normalized, normalize}
use clickman.Ingest.Body.{Gunzip}
use clickman.Ingest.Database.{Row, row_of, has_id, insert_row, insert}
use clickman.Ingest.Settings.{Published, Settings}
use clickman.Ingest.Settings.Cell.{IsPublished}
use clickman.Ingest.App.{Response, bearer, source_of}
use clickman.Ingest.App.Answers.{Promises}
use clickman.Ingest.Server.{Server, arrive, begin, land, refresh}
use clickman.Ingest.Server.Runs.{
  Step, arrives, lands, drops, refreshes, stops, Reach, here, then, ServerInv, Reach-answers,
  checked_by-rows,
}

insert_row-All :
    (P : Row → Type 0) (row : Row) (rows : List Row)
    → P row
    → All P rows
    → All P (insert_row row rows)
unfolding insert_row
insert_row-All P row rows h all = elim (Bool-cases (has_id row.message_id rows)) [
  | inl e ↦ rw e all
  | inr e ↦ rw e (All-append P rows (row ∷ []) all (h, tt))
]

insert-All :
    (P : Row → Type 0) (events : List Event) (t : ℤ) (rows : List Row)
    → All (λ e. P (row_of t e)) events
    → All P rows
    → All P (insert events t rows).1
unfolding insert
insert-All P [] t rows h all = all
insert-All P (e ∷ events) t rows h all =
    insert-All P events t (insert_row (row_of t e) rows) h.1
      (insert_row-All P (row_of t e) rows h.0 all)

module _ (x : Externals) (gunzip : List ℕ → Gunzip) (sha256 : List ℕ → List ℕ)
    (to_lowercase : Text → Text) (duration_days : ℤ → Option ℤ)
    (parse : Value → Option Published) where
  -- The row of an event to which some bytes normalize under published settings.
  pub record Accepted (row : Row) : Type 0 where
    pub settings : Settings
    pub published : IsPublished to_lowercase duration_days parse settings
    pub bytes : List ℕ
    pub received_at : ℤ
    pub normalized : Normalized
    pub read : normalize x bytes received_at settings.fragments settings.limits ≡ ok normalized
    pub event : Event
    pub among : Memᴰ event normalized.events
    pub stored : row ≡ row_of received_at event

  -- The row was there, or is one of these.
  abbrev pub Known : List Row → Row → Type 0
  Known before row = Memᴰ row before ⊎ Accepted row

  Promises-Known :
      (before : List Row) (settings : Settings) (t : ℤ) (answer : Option Response)
      (rows after : List Row)
      → IsPublished to_lowercase duration_days parse settings
      → Promises x settings t answer rows after
      → All (Known before) rows
      → All (Known before) after
  Promises-Known before settings t none rows after published same all =
      subst (All (Known before)) (sym same) all
  Promises-Known before settings t (some r) rows after published
        (inl (status, (bytes, normalized, e, inserted, duplicates, reply, h, sum))) all =
      subst (All (Known before)) (ap (λ result. result.1) h) (
        insert-All (Known before) normalized.events t rows
          (All-map (λ event. Memᴰ event normalized.events) (λ event. Known before (row_of t event))
            normalized.events
            (λ event among. inr (record {
              settings = settings;
              published = published;
              bytes = bytes;
              received_at = t;
              normalized = normalized;
              read = e;
              event = event;
              among = among;
              stored = refl;
            }))
            (All-Mem normalized.events))
          all)
  Promises-Known before settings t (some r) rows after published (inr (inl (status, same))) all =
      subst (All (Known before)) (sym same) all
  Promises-Known before settings t (some r) rows after published (inr (inr (status, same, wait)))
        all =
      subst (All (Known before)) (sym same) all

  -- A step, from a server that was reached.
  step-Known :
      (start s s' : Server)
      → Reach x gunzip sha256 to_lowercase duration_days parse start s
      → ServerInv to_lowercase duration_days parse start
      → Step x gunzip sha256 to_lowercase duration_days parse s s'
      → All (Known start.app.rows) s.app.rows
      → All (Known start.app.rows) s'.app.rows
  unfolding arrive begin land refresh
  step-Known start s _ reached v (arrives _ request moment) all =
      subst (All (Known start.app.rows))
        (sym (
          checked_by-rows x gunzip sha256 to_lowercase duration_days parse s.settings
            (source_of x gunzip sha256 s.settings (bearer request)) request moment s.app))
        all
  step-Known start s _ reached v (lands _ before after flight works e) all =
      let (published, promised) =
        Reach-answers x gunzip sha256 to_lowercase duration_days parse start s before after flight
          works reached v e in
      Promises-Known start.app.rows flight.settings flight.moment.received_at _ s.app.rows _
        published promised all
  step-Known start s _ reached v (drops _ before after flight e) all = all
  step-Known start s _ reached v (refreshes _ query on) all = all
  step-Known start s _ reached v (stops _) all = all

  -- Every row of a server that was reached from one with a table of no message id twice, and with
  -- settings that are published ones or those of nothing published, was in that table, or is the row of
  -- an event to which some bytes normalize under such settings.
  pub Reach-Known :
      (start s : Server)
      → Reach x gunzip sha256 to_lowercase duration_days parse start s
      → ServerInv to_lowercase duration_days parse start
      → All (Known start.app.rows) s.app.rows
  Reach-Known start _ here v =
      All-map (λ row. Memᴰ row start.app.rows) (Known start.app.rows) start.app.rows
        (λ row there. inl there) (All-Mem start.app.rows)
  Reach-Known start _ (then s s' reached step) v =
      step-Known start s s' reached v step (Reach-Known start s reached v)
