-- ===== src/Main/Serving.antt =====
-- The process of main.go: when it takes requests, on which address, and what it leaves open.
use path_external_auth_serve.Base.{
  List, ℤ, pos, FitsSigned, bytes, format_int, ◌<ℤ◌, panics, none, some, [], ◌∷◌, ◌++◌, ◌≡◌, ◌≢◌,
  ◌↔◌, refl, sym, ap, ◌∙◌, arith,
}
use path_external_auth_serve.Metrics.{Floats, MetricOp}
use path_external_auth_serve.Grove.{get_portal_apps}
use path_external_auth_serve.Grove.Driver.{new_grove_postgres_driver_iff, pool_made}
use path_external_auth_serve.Env.{port_env}
use path_external_auth_serve.Dwh.{new_driver}
use path_external_auth_serve.Store.{Store, start_background_refresh}
use path_external_auth_serve.RateLimit.{RateLimitedAccounts}
use path_external_auth_serve.Main.Effects.{
  refreshing, postgres, warehouse, Event, Outcome, reported, opened, started,
}
use path_external_auth_serve.Main.{
  World, main, after_rate_limit_store, after_portal_app_store, after_warehouse, after_postgres,
  after_connecting, after_env,
}
use path_external_auth_serve.Main.Stages.{
  served, listened, new_portal_app_store_of, new_rate_limit_store_ok,
}
use path_external_auth_serve.Main.Process.{first_panic, Schedule, interrupted, process}
use path_external_auth_serve.Main.Calm.{IsPaced, process-main}
use path_external_auth_serve.Main.Ready.{IsReady, main_serves_iff, ready_run}
use path_external_auth_serve.Main.Ports.{given_port}
use path_external_auth_serve.Main.Connections.{open_after, main-IsBalanced}

module _ (floats : Floats) {Config Pool : Type 0} (w : World Config Pool)
    (delay : Schedule floats) where
  -- Where both intervals of the configuration are positive, and whenever the goroutines are run: the
  -- gRPC server comes to take requests with a store and a map of rate limited accounts exactly when
  -- the environment is valid, Postgres is connected, the client of the data warehouse is made, the
  -- portal apps are fetched and the port can be listened on; the store then holds those portal apps
  -- and the map is the outcome of the initial check, failed or not.
  pub process_serves_iff :
      (store : Store) (limited : RateLimitedAccounts)
      → IsPaced w
      → (served (process floats delay (main floats w)).trace ≡ some (store, limited))
        ↔ IsReady floats w store limited
  process_serves_iff store limited paced =
      rw (process-main floats w delay paced) (main_serves_iff floats w store limited)

  -- Where both intervals of the configuration are positive, and whatever the outside world answers:
  -- every pool of Postgres that is made, be it one that does not answer the ping, and every client
  -- of the data warehouse is closed when the process ends, by a return or by a panic of `main`.
  pub process_closes_connections :
      IsPaced w → open_after [] (process floats delay (main floats w)).trace ≡ []
  process_closes_connections paced =
      rw (process-main floats w delay paced) (main-IsBalanced floats w)

  -- Where both intervals of the configuration are positive, everything that `main` waits for has
  -- come, and PORT spells a number within 64 bits in decimal that is not zero: the gRPC server
  -- listens on the address that spells the variable behind a colon.
  pub process_listens_on_given_port :
      (store : Store) (limited : RateLimitedAccounts) (z : ℤ)
      → IsPaced w
      → IsReady floats w store limited
      → FitsSigned 63 z
      → z ≢ pos 0
      → w.runtime.getenv port_env ≡ format_int z
      → listened (process floats delay (main floats w)).trace
        ≡ some (bytes ":" ++ w.runtime.getenv port_env)
  process_listens_on_given_port store limited z paced ready fits nonzero given =
      rw (process-main floats w delay paced) (
        (ready_run floats w store limited ready).1
        ∙ ap some (given_port w.runtime ready.env z fits nonzero given ready.configured))

  refreshing_panics :
      (interval : ℤ)
      → interval <ℤ pos 0
      → first_panic floats (refreshing interval)
        ≡ some (bytes "non-positive interval for NewTicker")
  unfolding first_panic start_background_refresh
  refreshing_panics interval negative = ground (arith, negative)

  -- A run up to the start of the refreshes, and on.
  abbrev StartsRefreshing : ℤ → Outcome floats.Float (Unit {0}) → Type 0
  StartsRefreshing interval run =
      (first second : List (MetricOp floats.Float)) × (next : Event floats.Float) × (rest : List
        (Event floats.Float))
      × (run.trace
          ≡ reported first
            ∷ opened postgres
            ∷ opened warehouse
            ∷ reported second
            ∷ started (refreshing interval)
            ∷ next
            ∷ rest)

  stopped :
      (interval : ℤ) (run : Outcome floats.Float (Unit {0}))
      → StartsRefreshing interval run
      → interval <ℤ pos 0
      → delay (refreshing interval) ≡ 0
      → ((process floats delay run).end ≡ panics (bytes "non-positive interval for NewTicker"))
        × (served (process floats delay run).trace ≡ none)
        × (open_after [] (process floats delay run).trace ≡ warehouse ∷ postgres ∷ [])
  unfolding process interrupted
  stopped interval run (first, second, next, rest, e) negative at_once =
      let panic = refreshing_panics interval negative in
      rw e (ground (arith, panic, at_once), rw (panic, at_once) refl, rw (panic, at_once) refl)

  ready-StartsRefreshing :
      (store : Store) (limited : RateLimitedAccounts) (r : IsReady floats w store limited)
      → StartsRefreshing r.env.portal_app_store_refresh_interval (main floats w)
  unfolding main after_env after_connecting after_postgres after_warehouse after_portal_app_store
      after_rate_limit_store new_driver
  ready-StartsRefreshing store limited r =
      let connects =
        (new_grove_postgres_driver_iff w.pgxpool r.env.postgres_connection_string r.pool
            (pool_made r.pool ∷ [])).1
          (r.connected, refl) in
      let loads =
        new_portal_app_store_of floats (get_portal_apps (w.query r.pool)) r.portal_apps r.fetched in
      let limits =
        new_rate_limit_store_ok floats
          (record { client_bq = r.big_query; project_id = r.env.gcp_project_id }) store in
      rw (r.configured, connects, r.client, loads.1, sym r.loaded) (rw limits (_, _, _, _, refl))

  -- Where everything that `main` waits for has come, but the refresh interval of the portal app
  -- store is negative, and the goroutine of the refresh is run before `main` goes on: the process
  -- ends by the panic of the ticker, before it takes requests, and with both connections open.
  pub negative_interval_ends_process :
      (store : Store) (limited : RateLimitedAccounts) (ready : IsReady floats w store limited)
      → ready.env.portal_app_store_refresh_interval <ℤ pos 0
      → delay (refreshing ready.env.portal_app_store_refresh_interval) ≡ 0
      → ((process floats delay (main floats w)).end
          ≡ panics (bytes "non-positive interval for NewTicker"))
        × (served (process floats delay (main floats w)).trace ≡ none)
        × (open_after [] (process floats delay (main floats w)).trace ≡ warehouse ∷ postgres ∷ [])
  negative_interval_ends_process store limited ready =
      stopped ready.env.portal_app_store_refresh_interval (main floats w)
        (ready-StartsRefreshing store limited ready)
