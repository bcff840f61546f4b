-- ===== src/Ingest/Server/Start.antt =====
-- `main` of rust/crates/clickman-ingest/src/main.rs up to the listening server. An error is its
-- outermost message. `Host` stands for the environment of the process, `sqlx`, the query of the
-- published settings and the socket.
use clickman.Base.{◌≡◌, refl, subst, Bool, true, false, not, Option, List, [], ◌++◌, arith, ◌==◌}
use clickman.Base.Int.{ℤ}
use clickman.Base.Text.{Text, text}
use clickman.Json.{Value}
use clickman.Protocol.Outcome.{
  Outcome, ok, err, panic, ◌>>=◌, with-ok, refuse_if, refuse_if-ok, ok-inj,
}
use clickman.Ingest.Database.{Row}
use clickman.Ingest.Database.Laws.{Distinct}
use clickman.Ingest.Configuration.{Configuration, from_env}
use clickman.Ingest.Schema.{
  Drivers, Catalog, connect, verify_schema, has_events, has_settings, verify_schema_exact,
}
use clickman.Ingest.Settings.{Published, Settings}
use clickman.Ingest.Settings.Cell.{Query, fetch, fetch-IsPublished}
use clickman.Ingest.Server.{Server}
use clickman.Ingest.Server.Runs.{ServerInv}

pub record Host (Address : Type 0) : Type 0 where
  pub var : Text → Option Text
  pub parse_address : Text → Option Address
  pub drivers : Drivers
  pub tables_read : Bool
  pub tables_error : Text
  pub query : Query
  pub listens : Address → Bool
  pub address_text : Address → Text

-- `context`, on an error.
unfoldable pub context : {A : Type 0} → Text → Outcome Text A → Outcome Text A
context message (ok a) = ok a
context message (err e) = err message
context message panic = panic

context-ok :
    {A : Type 0} (message : Text) (o : Outcome Text A) (a : A) → context message o ≡ ok a → o ≡ ok a
unfolding context
context-ok message (ok b) a h = h
context-ok message (err e) a h = absurd (ground arith)
context-ok message panic a h = absurd (ground arith)

module _ {A : Type 0} (to_lowercase : Text → Text) (duration_days : ℤ → Option ℤ)
    (parse : Value → Option Published) where
  -- The server that listens first, on the table of its database. The first tick of the refresh task is
  -- at once; `tokio::time::interval` panics where the period is 0, which ends the task.
  abbrev pub listening : Configuration A → Settings → List Row → Server
  listening config settings rows = record {
    settings = settings;
    app = record { buckets = []; rows = rows };
    flights = [];
    refreshing = not (config.settings_refresh == 0);
  }

  unfoldable pub start : Host A → List Row → Outcome Text Server
  unfolding from_env connect verify_schema context fetch refuse_if
  start host rows = do
    config ← from_env host.parse_address host.var
    database ← connect host.drivers config.database_url config.pool_size
    verified ← verify_schema host.tables_read host.tables_error database
    settings ←
        context (text "load the published ingest settings")
          (fetch to_lowercase duration_days parse host.query)
    bound ←
        refuse_if (not (host.listens config.bind))
          (text "bind clickman-ingest to " ++ host.address_text config.bind)
    ok (listening config settings rows)

  -- The table has what the caller's had, and the invariant.
  abbrev pub Started : Host A → List Row → Server → Type 0
  Started host rows server =
      (config : Configuration A) × (database : Catalog) × (from_env host.parse_address host.var
        ≡ ok config)
      × (connect host.drivers config.database_url config.pool_size ≡ ok database)
      × (has_events database ≡ true)
      × (has_settings database ≡ true)
      × (host.listens config.bind ≡ true)
      × (server.app.rows ≡ rows)
      × (server.refreshing ≡ not (config.settings_refresh == 0))
      × ServerInv to_lowercase duration_days parse server

  started :
      (host : Host A) (rows : List Row) (config : Configuration A) (database : Catalog)
      (settings : Settings) (server : Server)
      → Distinct rows
      → from_env host.parse_address host.var ≡ ok config
      → connect host.drivers config.database_url config.pool_size ≡ ok database
      → verify_schema host.tables_read host.tables_error database ≡ ok tt
      → fetch to_lowercase duration_days parse host.query ≡ ok settings
      → not (host.listens config.bind) ≡ false
      → listening config settings rows ≡ server
      → Started host rows server
  started host rows config database settings server d environment connected schema loaded listens
        same =
      let (works, events, known) =
        (verify_schema_exact host.tables_read host.tables_error database).0.0 schema in
      subst (Started host rows) same (
        config,
        database,
        environment,
        connected,
        events,
        known,
        ground arith,
        refl,
        refl,
        record {
          distinct = d;
          current = fetch-IsPublished to_lowercase duration_days parse host.query settings loaded;
          snapshots = tt;
        },
      )

  -- A server that starts without an error has read its configuration, opened the database and found
  -- both tables in it, and it listens. Its settings are published ones, or those of nothing published,
  -- its table is the one it found, and it refreshes the settings unless the period is 0.
  pub start-Started :
      (host : Host A) (rows : List Row) (server : Server)
      → Distinct rows
      → start host rows ≡ ok server
      → Started host rows server
  unfolding start
  start-Started host rows server d h = with-ok _ _ server h (λ config environment rest₁.
      with-ok _ _ server rest₁ (λ database connected rest₂.
        with-ok _ _ server rest₂ (λ verified schema rest₃.
          with-ok
            (context (text "load the published ingest settings")
              (fetch to_lowercase duration_days parse host.query))
            _ server rest₃
            (λ settings loaded rest₄.
              with-ok
                (refuse_if (not (host.listens config.bind))
                  (text "bind clickman-ingest to " ++ host.address_text config.bind))
                _ server rest₄
                (λ bound listens rest₅.
                  started host rows config database settings server d environment connected schema
                    (context-ok (text "load the published ingest settings") _ settings loaded)
                    (refuse_if-ok _
                      (text "bind clickman-ingest to " ++ host.address_text config.bind) bound
                      listens)
                    (ok-inj {E = Text} _ server rest₅))))))
