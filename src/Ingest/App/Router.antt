-- ===== src/Ingest/App/Router.antt =====
-- `AppState::new`, and the tables of `router` and `health` of rust/crates/clickman-ingest/src/app.rs: which
-- handler `axum` is given for which path and method.
use clickman.Base.{List, [], ◌∷◌}
use clickman.Base.Text.{Text, text}
use clickman.Ingest.Database.{Row}
use clickman.Ingest.App.{AppState}

-- The state of a server that starts: no client has a bucket yet.
abbrev pub new : List Row → AppState
new rows = record { buckets = []; rows = rows }

pub data Method : Type 0 where
  get post : Method

pub data Handler : Type 0 where
  batch_handler health_handler : Handler

pub record Route : Type 0 where
  pub path : Text
  pub method : Method
  pub handler : Handler

unfoldable pub router : List Route
router =
    record { path = text "/v1/batch"; method = post; handler = batch_handler }
    ∷ record { path = text "/health"; method = get; handler = health_handler }
    ∷ []

abbrev pub health : Text
health = text "ok"
