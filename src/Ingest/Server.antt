-- ===== src/Ingest/Server.antt =====
-- What rust/crates/clickman-ingest/src/main.rs starts and keeps running: the settings that the refresh
-- task replaces, the rate limiter and the table, and the requests in flight. `batch` of
-- rust/crates/clickman-ingest/src/app.rs is here in two parts: it takes the settings and asks the
-- limiter, then it reads the body, normalizes and stores. Other requests and a refresh of the settings
-- may come between them.
pub mod Runs
pub mod Origins
pub mod Start
pub mod Shutdown
use clickman.Base.{ℕ, ◌≡◌, refl, Bool, true, false, Option, none, some, List, [], ◌∷◌, ◌++◌}
use clickman.Base.Int.{ℤ}
use clickman.Base.Text.{Text, text}
use clickman.Json.{Value}
use clickman.Protocol.Outcome.{Outcome, ok, err, panic}
use clickman.Protocol.Batch.{Externals}
use clickman.Ingest.Body.{Gunzip}
use clickman.Ingest.Database.{Row}
use clickman.Ingest.Limiter.{Decision, Buckets}
use clickman.Ingest.Settings.{Published, Settings}
use clickman.Ingest.Settings.Cell.{Query, reload}
use clickman.Ingest.App.{
  Request, Response, AppState, Moment, failing, bearer, after_check, source_of, limit_of, handle,
  batch,
}

-- What a request came to before its body is read; without a decision the limiter panicked.
pub data Progress : Type 0 where
  unknown_key : Progress
  checked : Option Decision → Progress

pub record Flight : Type 0 where
  pub settings : Settings
  pub request : Request
  pub moment : Moment
  pub progress : Progress

pub record Server : Type 0 where
  pub settings : Settings
  pub app : AppState
  pub flights : List Flight
  pub refreshing : Bool

module _ (x : Externals) (gunzip : List ℕ → Gunzip) (sha256 : List ℕ → List ℕ) where
  abbrev pub checked_by : Settings → Option Text → Request → Moment → AppState → Progress × AppState
  checked_by settings none request moment app = (unknown_key, app)
  checked_by settings (some source) request moment app =
      let (decision, buckets) = limit_of x gunzip sha256 settings source request moment app in
      (checked decision, record app { buckets = buckets })

  -- The first part of `batch`.
  unfoldable pub begin : Settings → Request → Moment → AppState → Flight × AppState
  begin settings request moment app =
      let (progress, app') =
        checked_by settings (source_of x gunzip sha256 settings (bearer request)) request moment
          app in
      (
        record { settings = settings; request = request; moment = moment; progress = progress },
        app',
      )

  -- The second part, on what the table has become.
  unfoldable pub conclude : Flight → Progress → Bool → List Row → Option Response × List Row
  conclude flight unknown_key works rows = (some (failing 401 (text "invalid_write_key")), rows)
  conclude flight (checked decision) works rows =
      after_check x gunzip sha256 flight.settings decision flight.request
        (record flight.moment { database_works = works }) rows

  unfoldable pub finish : Flight → Bool → List Row → Option Response × List Row
  unfolding conclude
  finish flight works rows = conclude flight flight.progress works rows

  unfoldable pub arrive : Request → Moment → Server → Server
  unfolding begin
  arrive request moment s =
      let (flight, app) = begin s.settings request moment s.app in
      record s { app = app; flights = s.flights ++ flight ∷ [] }

  unfoldable pub land : Flight → List Flight → Bool → Server → Server
  unfolding finish
  land flight others works s = record s {
    app = record s.app { rows = (finish flight works s.app.rows).1 };
    flights = others;
  }

module _ (to_lowercase : Text → Text) (duration_days : ℤ → Option ℤ)
    (parse : Value → Option Published) where
  -- A tick of the refresh task, which a panic ends.
  abbrev pub survives : Outcome Text (Unit {0}) → Bool
  survives panic = false
  survives _ = true

  unfoldable pub refresh : Query → Server → Server
  unfolding reload
  refresh query s =
      let (outcome, settings) = reload to_lowercase duration_days parse query s.settings in
      record s { settings = settings; refreshing = survives outcome }
