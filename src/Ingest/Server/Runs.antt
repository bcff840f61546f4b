-- ===== src/Ingest/Server/Runs.antt =====
-- The running server: a request arrives, one in flight is answered or dropped with its connection, the
-- settings are refreshed, the refreshing stops. The steps come in any order.
use clickman.Base.{
  ℕ, ◌≡◌, refl, sym, ap, ◌∙◌, subst, inl, inr, Bool, true, false, Option, none, some, List, [], ◌∷◌,
  ◌++◌, All, All-append,
}
use mathlib.Core.List.{append-nil}
use clickman.Base.Int.{ℤ}
use clickman.Base.Text.{Text}
use clickman.Json.{Value}
use clickman.Protocol.Batch.{Externals}
use clickman.Ingest.Body.{Gunzip}
use clickman.Ingest.Database.{Row}
use clickman.Ingest.Database.Laws.{Distinct}
use clickman.Ingest.Database.Grown.{Grown, Grown-refl, Grown-trans, insert-Grown}
use clickman.Ingest.Settings.{Published, Settings}
use clickman.Ingest.Settings.Cell.{Query, IsPublished, reload-IsPublished}
use clickman.Client.Outcome.{of}
use clickman.Ingest.App.{Request, Response, Moment, AppState, bearer, source_of}
use clickman.Ingest.App.Answers.{Promises, checked-Sound}
use clickman.Ingest.Server.{
  Progress, unknown_key, checked, Flight, Server, begin, checked_by, conclude, finish, arrive, land,
  refresh,
}

module _ (to_lowercase : Text → Text) (duration_days : ℤ → Option ℤ)
    (parse : Value → Option Published) where
  -- The table has no message id twice, and the settings in force and those of every request in flight
  -- are published ones.
  pub record ServerInv (s : Server) : Type 0 where
    pub distinct : Distinct s.app.rows
    pub current : IsPublished to_lowercase duration_days parse s.settings
    pub snapshots :
        All
          (λ (flight : Flight). IsPublished to_lowercase duration_days parse flight.settings)
          s.flights

module _ (x : Externals) (gunzip : List ℕ → Gunzip) (sha256 : List ℕ → List ℕ)
    (to_lowercase : Text → Text) (duration_days : ℤ → Option ℤ)
    (parse : Value → Option Published) where
  pub data Step : Server → Server → Type 0 where
    arrives :
        (s : Server) (request : Request) (moment : Moment)
        → Step s (arrive x gunzip sha256 request moment s)
    lands :
        (s : Server) (before after : List Flight) (flight : Flight) (works : Bool)
        → s.flights ≡ before ++ flight ∷ after
        → Step s (land x gunzip sha256 flight (before ++ after) works s)
    drops :
        (s : Server) (before after : List Flight) (flight : Flight)
        → s.flights ≡ before ++ flight ∷ after
        → Step s (record s { flights = before ++ after })
    refreshes :
        (s : Server) (query : Query)
        → s.refreshing ≡ true
        → Step s (refresh to_lowercase duration_days parse query s)
    stops : (s : Server) → Step s (record s { refreshing = false })

  pub data Reach (start : Server) : Server → Type 0 where
    here : Reach start start
    then : (s s' : Server) → Reach start s → Step s s' → Reach start s'

  abbrev InForce : Settings → Type 0
  InForce = IsPublished to_lowercase duration_days parse

  abbrev Inv : Server → Type 0
  Inv = ServerInv to_lowercase duration_days parse

  All-remove :
      {A : Type 0} (P : A → Type 0) (before after : List A) (a : A)
      → All P (before ++ a ∷ after)
      → P a × All P (before ++ after)
  All-remove P [] after a h = (h.0, h.1)
  All-remove P (b ∷ before) after a h =
      let (found, rest) = All-remove P before after a h.1 in (found, (h.0, rest))

  conclude-Sound :
      (flight : Flight) (progress : Progress) (works : Bool) (rows : List Row)
      → Distinct rows
      → Promises x flight.settings flight.moment.received_at
          (conclude x gunzip sha256 flight progress works rows).0
          rows
          (conclude x gunzip sha256 flight progress works rows).1
        × Distinct (conclude x gunzip sha256 flight progress works rows).1
  unfolding conclude of
  conclude-Sound flight unknown_key works rows d = (inr (inr (refl, refl, inl refl)), d)
  conclude-Sound flight (checked decision) works rows d =
      checked-Sound x gunzip sha256 flight.settings
        (record flight.moment { database_works = works }) rows d decision flight.request

  Promises-Grown :
      (settings : Settings) (t : ℤ) (answer : Option Response) (rows after : List Row)
      → Promises x settings t answer rows after
      → Grown rows after
  Promises-Grown settings t none rows after same = ([], same ∙ sym (append-nil rows))
  Promises-Grown settings t (some r) rows after
        (inl (status, (bytes, normalized, e, inserted, duplicates, reply, h, sum))) =
      subst (Grown rows) (ap (λ result. result.1) h) (insert-Grown normalized.events t rows)
  Promises-Grown settings t (some r) rows after (inr (inl (status, same))) =
      ([], same ∙ sym (append-nil rows))
  Promises-Grown settings t (some r) rows after (inr (inr (status, same, wait))) =
      ([], same ∙ sym (append-nil rows))

  -- The table of a server has what the table of an earlier one had, and the invariant holds still.
  abbrev pub Kept : Server → Server → Type 0
  Kept s s' = Inv s' × Grown s.app.rows s'.app.rows

  pub checked_by-rows :
      (settings : Settings) (source : Option Text) (request : Request) (moment : Moment)
      (app : AppState)
      → (checked_by x gunzip sha256 settings source request moment app).1.rows ≡ app.rows
  checked_by-rows settings none request moment app = refl
  checked_by-rows settings (some source) request moment app = refl

  arrive-Kept :
      (request : Request) (moment : Moment) (s : Server)
      → Inv s
      → Kept s (arrive x gunzip sha256 request moment s)
  unfolding arrive begin
  arrive-Kept request moment s v =
      let same =
        checked_by-rows s.settings (source_of x gunzip sha256 s.settings (bearer request)) request
          moment s.app in
      (
        record {
          distinct = subst Distinct (sym same) v.distinct;
          current = v.current;
          snapshots = All-append _ s.flights (_ ∷ []) v.snapshots (v.current, tt);
        },
        ([], same ∙ sym (append-nil s.app.rows)),
      )

  land-Kept :
      (before after : List Flight) (flight : Flight) (works : Bool) (s : Server)
      → s.flights ≡ before ++ flight ∷ after
      → Inv s
      → Kept s (land x gunzip sha256 flight (before ++ after) works s)
  unfolding land finish
  land-Kept before after flight works s e v =
      let (promised, d) = conclude-Sound flight flight.progress works s.app.rows v.distinct in
      let flights = All-remove _ before after flight (subst (All _) e v.snapshots) in
      (
        record { distinct = d; current = v.current; snapshots = flights.1 },
        Promises-Grown flight.settings flight.moment.received_at _ s.app.rows _ promised,
      )

  step-Kept : (s s' : Server) → Step s s' → Inv s → Kept s s'
  unfolding refresh
  step-Kept s _ (arrives _ request moment) v = arrive-Kept request moment s v
  step-Kept s _ (lands _ before after flight works e) v = land-Kept before after flight works s e v
  step-Kept s _ (drops _ before after flight e) v = (
    record {
      distinct = v.distinct;
      current = v.current;
      snapshots = (All-remove _ before after flight (subst (All _) e v.snapshots)).1;
    },
    Grown-refl s.app.rows,
  )
  step-Kept s _ (refreshes _ query on) v = (
    record {
      distinct = v.distinct;
      current = reload-IsPublished to_lowercase duration_days parse query s.settings v.current;
      snapshots = v.snapshots;
    },
    Grown-refl s.app.rows,
  )
  step-Kept s _ (stops _) v = (
    record { distinct = v.distinct; current = v.current; snapshots = v.snapshots },
    Grown-refl s.app.rows,
  )

  -- Whatever the steps of a server on a table with no message id twice and with settings, in force and
  -- for the requests in flight, that are published ones or those of nothing published,
  -- its table has no id twice, what was stored is still there in its place, and the settings in force
  -- and those of every request in flight are published ones, or those of nothing published.
  pub Reach-Kept : (start s : Server) → Reach start s → Inv start → Kept start s
  Reach-Kept start _ here v = (v, Grown-refl start.app.rows)
  Reach-Kept start _ (then s s' r step) v =
      let (before, grown) = Reach-Kept start s r v in
      let (after, more) = step-Kept s s' step before in
      (after, Grown-trans start.app.rows s.app.rows s'.app.rows grown more)

  -- A request in flight, in a server reached from one with a table of no message id twice and with
  -- published settings or those of nothing published, is answered with the settings that it took, which
  -- are such settings, whatever came since it arrived. It is delivered, with its events inserted into
  -- the table as it is now and counted; or it is refused with the table as it is; or it is to be sent
  -- again with the table as it is, and the client is told to wait for at least a second, but for an
  -- unknown key; or the handler panics, which leaves the table as it is.
  pub Reach-answers :
      (start s : Server) (before after : List Flight) (flight : Flight) (works : Bool)
      → Reach start s
      → Inv start
      → s.flights ≡ before ++ flight ∷ after
      → InForce flight.settings
        × Promises x flight.settings flight.moment.received_at
            (finish x gunzip sha256 flight works s.app.rows).0
            s.app.rows
            (finish x gunzip sha256 flight works s.app.rows).1
  unfolding finish
  Reach-answers start s before after flight works r v e =
      let (now, grown) = Reach-Kept start s r v in
      (
        (All-remove _ before after flight (subst (All _) e now.snapshots)).0,
        (conclude-Sound flight flight.progress works s.app.rows now.distinct).0,
      )
