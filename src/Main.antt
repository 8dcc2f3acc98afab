-- ===== src/Main.antt =====
-- The startup: main.go, behind the package initialization of metrics/auth_metrics.go. What the
-- outside world answers is a parameter. A run is the list of what it does, in order, and its end;
-- deferred calls run at a return and at a panic of `main` itself. Main/Process.antt has the process,
-- which a panic of another goroutine ends at once. The stores are those that `main` makes; what
-- their goroutines do to them later is told in System.
pub mod Effects
pub mod Connections
pub mod Stages
pub mod Ready
pub mod Process
pub mod Calm
pub mod Serving
pub mod Ports
pub mod Decisions
use path_external_auth_serve.Base.{
  GoString, bytes, ℤ, format_int, Result, ok, err, Option, none, some, List, [], ◌∷◌, ◌++◌, map,
}
use path_external_auth_serve.Metrics.{Floats, MetricOp, init_metrics}
use path_external_auth_serve.Metrics.Server.{Server, serve_metrics, serve_pprof}
use path_external_auth_serve.Env.{Runtime, EnvVars, gather_env_vars}
use path_external_auth_serve.Grove.{Cursor, get_portal_apps}
use path_external_auth_serve.Grove.Driver.{
  Pgxpool, PoolEvent, pool_made, pool_closed, new_grove_postgres_driver,
}
use path_external_auth_serve.Dwh.{BigQuery, Driver, new_driver, get_month_to_moment_usage}
use path_external_auth_serve.Store.{Store, get_account_portal_app, new_portal_app_store}
use path_external_auth_serve.RateLimit.{
  RateLimitedAccounts, free_monthly_relays, new_rate_limit_store,
}
use path_external_auth_serve.Main.Effects.{
  Connection, postgres, warehouse, Goroutine, refreshing, monitoring, listen_and_serve,
  awaiting_done, Event, reported, opened, started, closed, listening, serving, Outcome, ◌>>=◌, ◌>>◌,
  emit, panic, closing,
}

pub record World (Config Pool : Type 0) : Type 0 where
  pub runtime : Runtime
  pub pgxpool : Pgxpool Config Pool
  -- what the first query on the pool answers
  pub query : Pool → Result Cursor
  -- bigquery.NewClient, for a project
  pub new_client : GoString → Result BigQuery
  -- net.Listen on TCP, for an address
  pub listen : GoString → Option GoString
  -- what `Serve` of the gRPC server returns in the end; an error, since nothing stops the server
  pub serve : Option GoString

-- fmt.Sprintf(":%d", port)
abbrev pub address : ℤ → GoString
address port = bytes ":" ++ format_int port

module _ (floats : Floats) {Config Pool : Type 0} (w : World Config Pool) where
  abbrev pub Main : Type 0
  Main = Outcome floats.Float (Unit {0})

  -- `main` from the outcome of `Serve` on
  unfoldable pub after_serve : Option GoString → Main
  after_serve (some message) = panic message
  after_serve none = emit []

  -- `main` from the outcome of `net.Listen` on
  unfoldable pub after_listen : EnvVars → Store → RateLimitedAccounts → Option GoString → Main
  unfolding after_serve
  after_listen env store limited (some message) = panic message
  after_listen env store limited none = do
    emit (listening (address env.port) ∷ serving store limited ∷ [])
    after_serve w.serve

  -- `main` from the outcome of `ServeMetrics` on
  unfoldable pub after_metrics :
      EnvVars → Store → RateLimitedAccounts → Server × Option GoString → Main
  unfolding after_listen serve_pprof
  after_metrics env store limited (server, some message) = do
    emit (started (listen_and_serve server) ∷ [])
    panic (bytes "failed to start metrics server: " ++ message)
  after_metrics env store limited (server, none) = do
    emit (
        started (listen_and_serve server)
        ∷ started (listen_and_serve (serve_pprof (address env.pprof_port)))
        ∷ started (awaiting_done (serve_pprof (address env.pprof_port)))
        ∷ [])
    after_listen env store limited (w.listen (address env.port))

  -- `main` from the rate limit store on
  unfoldable pub after_rate_limit_store :
      EnvVars → Store → Result RateLimitedAccounts × List (MetricOp floats.Float) → Main
  unfolding after_metrics
  after_rate_limit_store env store (err message, ops) = do emit (reported ops ∷ []); panic message
  after_rate_limit_store env store (ok limited, ops) = do
    emit (reported ops ∷ started (monitoring env.rate_limit_store_refresh_interval) ∷ [])
    after_metrics env store limited (serve_metrics (address env.metrics_port) env.image_tag)

  -- `main` from the portal app store on
  unfoldable pub after_portal_app_store :
      EnvVars → Driver → Result Store × List (MetricOp floats.Float) → Main
  unfolding after_rate_limit_store
  after_portal_app_store env driver (err message, ops) = do emit (reported ops ∷ []); panic message
  after_portal_app_store env driver (ok store, ops) = do
    emit (reported ops ∷ started (refreshing env.portal_app_store_refresh_interval) ∷ [])
    after_rate_limit_store env store (
        new_rate_limit_store floats (get_account_portal_app store)
          (get_month_to_moment_usage driver free_monthly_relays))

  -- `main` from the outcome of `dwh.NewDriver` on
  unfoldable pub after_warehouse : EnvVars → Pool → Result Driver → Main
  unfolding after_portal_app_store
  after_warehouse env pool (err message) = panic message
  after_warehouse env pool (ok driver) = do
    emit (opened warehouse ∷ [])
    closing warehouse (
        after_portal_app_store env driver
          (new_portal_app_store floats (get_portal_apps (w.query pool))))

  -- what `NewGrovePostgresDriver` does to a pool
  abbrev pub pool_event : PoolEvent Pool → Event floats.Float
  pool_event (pool_made pool) = opened postgres
  pool_event (pool_closed pool) = closed postgres

  -- `main` from the outcome of `NewGrovePostgresDriver` on
  unfoldable pub after_postgres : EnvVars → Result Pool → Main
  unfolding after_warehouse
  after_postgres env (err message) = panic (bytes "failed to connect to postgres: " ++ message)
  after_postgres env (ok pool) =
      closing postgres
        (after_warehouse env pool (new_driver (w.new_client env.gcp_project_id) env.gcp_project_id))

  -- `main` from the end of `NewGrovePostgresDriver` on
  unfoldable pub after_connecting : EnvVars → Result Pool × List (PoolEvent Pool) → Main
  unfolding after_postgres
  after_connecting env (result, events) = do emit (map pool_event events); after_postgres env result

  -- `main` from the outcome of `gatherEnvVars` on
  unfoldable pub after_env : Result EnvVars → Main
  unfolding after_connecting
  after_env (err message) = panic (bytes "failed to gather environment variables: " ++ message)
  after_env (ok env) =
      after_connecting env (new_grove_postgres_driver w.pgxpool env.postgres_connection_string)

  unfoldable pub main : Main
  unfolding after_env
  main = do emit (reported init_metrics ∷ []); after_env (gather_env_vars w.runtime)
