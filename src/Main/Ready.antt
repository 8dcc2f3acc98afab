-- ===== src/Main/Ready.antt =====
-- When main.go comes to take requests, and with which stores.
use path_external_auth_serve.Base.{
  GoString, GoMap, Result, ok, err, Option, none, some, List, [], ◌∷◌, ◌++◌, map, ◌≡◌, ◌↔◌, refl,
  ap, sym, subst, ◌∙◌,
}
use path_external_auth_serve.PortalApp.{PortalApp}
use path_external_auth_serve.Metrics.{Floats, MetricOp}
use path_external_auth_serve.Grove.{get_portal_apps}
use path_external_auth_serve.Grove.Driver.{
  new_grove_postgres_driver, new_grove_postgres_driver_iff, IsConnected, PoolEvent, pool_made,
  pool_closed, pair_of,
}
use path_external_auth_serve.Metrics.Server.{Server, serve_metrics}
use path_external_auth_serve.Env.{EnvVars, gather_env_vars}
use path_external_auth_serve.Dwh.{BigQuery, Driver, new_driver, get_month_to_moment_usage}
use path_external_auth_serve.Store.{
  Store, set_portal_apps_by_account_id, get_account_portal_app, new_portal_app_store,
}
use path_external_auth_serve.RateLimit.{
  RateLimitedAccounts, free_monthly_relays, new_rate_limit_store,
}
use path_external_auth_serve.Main.Effects.{postgres, warehouse, Event}
use path_external_auth_serve.Main.{
  World, address, after_serve, after_listen, after_metrics, after_rate_limit_store,
  after_portal_app_store, after_warehouse, after_postgres, after_connecting, after_env, pool_event,
  main,
}
use path_external_auth_serve.Main.Stages.{
  served, initially_limited, served-closing, ok_injective, listened, new_rate_limit_store_ok,
  new_portal_app_store_ok, new_portal_app_store_of, new_driver_ok,
}

module _ (floats : Floats) {Config Pool : Type 0} (w : World Config Pool) where
  -- Everything that `main` waits for has come.
  pub record IsReady (store : Store) (limited : RateLimitedAccounts) : Type 0 where
    pub env : EnvVars
    pub configured : gather_env_vars w.runtime ≡ ok env
    pub pool : Pool
    pub connected : IsConnected w.pgxpool env.postgres_connection_string pool
    pub big_query : BigQuery
    pub client : w.new_client env.gcp_project_id ≡ ok big_query
    pub portal_apps : GoMap PortalApp
    pub fetched : get_portal_apps (w.query pool) ≡ ok portal_apps
    pub loaded : store ≡ record {
      portal_apps = portal_apps;
      account_portal_apps = set_portal_apps_by_account_id portal_apps [];
    }
    pub limits :
        limited
        ≡ initially_limited floats
            (record { client_bq = big_query; project_id = env.gcp_project_id })
            store
    pub bound : w.listen (address env.port) ≡ none

  served-pools :
      (pools : List (PoolEvent Pool)) (events : List (Event floats.Float))
      → served (map (pool_event floats w) pools ++ events) ≡ served events
  served-pools [] events = refl
  served-pools (pool_made pool ∷ pools) events = served-pools pools events
  served-pools (pool_closed pool ∷ pools) events = served-pools pools events

  module _ (store : Store) (limited : RateLimitedAccounts) where
    after_listen-served :
        (env : EnvVars) (s : Store) (l : RateLimitedAccounts) (answer : Option GoString)
        → served (after_listen floats w env s l answer).trace ≡ some (store, limited)
        → (answer ≡ none) × (s ≡ store) × (l ≡ limited)
    unfolding after_listen after_serve
    after_listen-served env s l (some message) h = cc h
    after_listen-served env s l none h = (refl, cc h, cc h)

    after_metrics-served :
        (env : EnvVars) (s : Store) (l : RateLimitedAccounts) (answer : Server × Option GoString)
        → served (after_metrics floats w env s l answer).trace ≡ some (store, limited)
        → (w.listen (address env.port) ≡ none) × (s ≡ store) × (l ≡ limited)
    unfolding after_metrics
    after_metrics-served env s l (server, some message) h = cc h
    after_metrics-served env s l (server, none) h =
        after_listen-served env s l (w.listen (address env.port)) h

    after_rate_limit_store-served :
        (env : EnvVars) (s : Store)
        (answer : Result RateLimitedAccounts × List (MetricOp floats.Float))
        → served (after_rate_limit_store floats w env s answer).trace ≡ some (store, limited)
        → (w.listen (address env.port) ≡ none) × (s ≡ store) × (answer.0 ≡ ok limited)
    unfolding after_rate_limit_store
    after_rate_limit_store-served env s (err message, ops) h = cc h
    after_rate_limit_store-served env s (ok l, ops) h =
        let (bound, same, limits) =
          after_metrics-served env s l (serve_metrics (address env.metrics_port) env.image_tag) h in
        (bound, same, ap ok limits)

    after_portal_app_store-served :
        (env : EnvVars) (driver : Driver) (answer : Result Store × List (MetricOp floats.Float))
        → served (after_portal_app_store floats w env driver answer).trace ≡ some (store, limited)
        → (answer.0 ≡ ok store)
          × (limited ≡ initially_limited floats driver store)
          × (w.listen (address env.port) ≡ none)
    unfolding after_portal_app_store
    after_portal_app_store-served env driver (err message, ops) h = cc h
    after_portal_app_store-served env driver (ok s, ops) h =
        let (bound, same, limits) =
          after_rate_limit_store-served env s
            (new_rate_limit_store floats (get_account_portal_app s)
              (get_month_to_moment_usage driver free_monthly_relays))
            h in
        (
          ap ok same,
          subst (λ x. limited ≡ initially_limited floats driver x) same
              (ok_injective (sym limits ∙ new_rate_limit_store_ok floats driver s)),
          bound,
        )

    after_warehouse-served :
        (env : EnvVars) (pool : Pool) (answer : Result Driver)
        → served (after_warehouse floats w env pool answer).trace ≡ some (store, limited)
        → (driver : Driver) × (answer ≡ ok driver)
          × ((new_portal_app_store floats (get_portal_apps (w.query pool))).0 ≡ ok store)
          × (limited ≡ initially_limited floats driver store)
          × (w.listen (address env.port) ≡ none)
    unfolding after_warehouse
    after_warehouse-served env pool (err message) h = cc h
    after_warehouse-served env pool (ok driver) h =
        let (loaded, limits, bound) =
          after_portal_app_store-served env driver
            (new_portal_app_store floats (get_portal_apps (w.query pool)))
            (sym (
                served-closing warehouse (
                  after_portal_app_store floats w env driver
                    (new_portal_app_store floats (get_portal_apps (w.query pool)))))
              ∙ h) in
        (driver, refl, loaded, limits, bound)

    after_postgres-served :
        (env : EnvVars) (answer : Result Pool)
        → served (after_postgres floats w env answer).trace ≡ some (store, limited)
        → (pool : Pool) × (answer ≡ ok pool)
          × (driver : Driver) × (new_driver (w.new_client env.gcp_project_id) env.gcp_project_id
              ≡ ok driver)
          × ((new_portal_app_store floats (get_portal_apps (w.query pool))).0 ≡ ok store)
          × (limited ≡ initially_limited floats driver store)
          × (w.listen (address env.port) ≡ none)
    unfolding after_postgres
    after_postgres-served env (err message) h = cc h
    after_postgres-served env (ok pool) h =
        let (driver, made, loaded, limits, bound) =
          after_warehouse-served env pool
            (new_driver (w.new_client env.gcp_project_id) env.gcp_project_id)
            (sym (
                served-closing postgres (
                  after_warehouse floats w env pool
                    (new_driver (w.new_client env.gcp_project_id) env.gcp_project_id)))
              ∙ h) in
        (pool, refl, driver, made, loaded, limits, bound)

    after_env-served :
        (answer : Result EnvVars)
        → gather_env_vars w.runtime ≡ answer
        → served (after_env floats w answer).trace ≡ some (store, limited)
        → IsReady store limited
    unfolding after_env after_connecting
    after_env-served (err message) _ h = cc h
    after_env-served (ok env) configured h =
        let (pool, connected, driver, made, loaded, limits, bound) =
          after_postgres-served env
            (new_grove_postgres_driver w.pgxpool env.postgres_connection_string).0
            (sym (
                served-pools (new_grove_postgres_driver w.pgxpool env.postgres_connection_string).1
                  _)
              ∙ h) in
        let (big_query, client, driver_is) =
          new_driver_ok (w.new_client env.gcp_project_id) env.gcp_project_id driver made in
        let (portal_apps, fetched, store_is) =
          new_portal_app_store_ok floats (get_portal_apps (w.query pool)) store loaded in
        record {
          env = env;
          configured = configured;
          pool = pool;
          connected =
              ((new_grove_postgres_driver_iff w.pgxpool env.postgres_connection_string pool
                  (new_grove_postgres_driver w.pgxpool env.postgres_connection_string).1).0
                (pair_of connected)).0;
          big_query = big_query;
          client = client;
          portal_apps = portal_apps;
          fetched = fetched;
          loaded = store_is;
          limits = subst (λ d. limited ≡ initially_limited floats d store) driver_is limits;
          bound = bound;
        }

    pub ready_run :
        (r : IsReady store limited)
        → (served (main floats w).trace ≡ some (store, limited))
          × (listened (main floats w).trace ≡ some (address r.env.port))
    unfolding main after_env after_connecting after_postgres after_warehouse after_portal_app_store
        after_rate_limit_store after_metrics after_listen after_serve new_driver serve_metrics
    ready_run r =
        let driver : Driver = record {
          client_bq = r.big_query;
          project_id = r.env.gcp_project_id;
        } in
        let connects =
          (new_grove_postgres_driver_iff w.pgxpool r.env.postgres_connection_string r.pool
              (pool_made r.pool ∷ [])).1
            (r.connected, refl) in
        let loads =
          new_portal_app_store_of floats (get_portal_apps (w.query r.pool)) r.portal_apps
            r.fetched in
        let limits = new_rate_limit_store_ok floats driver store in
        rw (r.configured, connects, r.client, loads.1, sym r.loaded)
          (rw (limits, r.bound) (cc, refl))

    pub main_serves_iff :
        (served (main floats w).trace ≡ some (store, limited)) ↔ IsReady store limited
    unfolding main
    main_serves_iff = (after_env-served (gather_env_vars w.runtime) refl, λ r. (ready_run r).0)
