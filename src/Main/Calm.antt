-- ===== src/Main/Calm.antt =====
-- The goroutines of main.go whose intervals are positive: none of them ends the process.
use path_external_auth_serve.Base.{
  GoString, ℤ, pos, ◌<ℤ◌, Result, ok, err, Option, none, some, List, [], ◌∷◌, map, All-append, ◌≡◌,
  refl, ap, arith,
}
use path_external_auth_serve.Metrics.{Floats, MetricOp}
use path_external_auth_serve.Grove.{get_portal_apps}
use path_external_auth_serve.Grove.Driver.{
  PoolEvent, pool_made, pool_closed, new_grove_postgres_driver,
}
use path_external_auth_serve.Metrics.Server.{Server, serve_metrics}
use path_external_auth_serve.Env.{EnvVars, gather_env_vars}
use path_external_auth_serve.Dwh.{Driver, new_driver, get_month_to_moment_usage}
use path_external_auth_serve.Store.{
  Store, get_account_portal_app, new_portal_app_store, start_background_refresh,
}
use path_external_auth_serve.RateLimit.{
  RateLimitedAccounts, free_monthly_relays, new_rate_limit_store, start_rate_limit_monitoring,
}
use path_external_auth_serve.Main.Effects.{refreshing, monitoring}
use path_external_auth_serve.Main.Process.{
  first_panic, arriving, Schedule, IsCalm, process, process_calm,
}
use path_external_auth_serve.Main.{
  World, address, after_serve, after_listen, after_metrics, after_rate_limit_store,
  after_portal_app_store, after_warehouse, after_postgres, after_connecting, after_env, pool_event,
  main,
}

pub record HasPositiveIntervals (env : EnvVars) : Type 0 where
  pub portal_app_store : pos 0 <ℤ env.portal_app_store_refresh_interval
  pub rate_limit_store : pos 0 <ℤ env.rate_limit_store_refresh_interval

-- Whatever configuration is gathered, its intervals are positive.
abbrev pub IsPaced : {Config Pool : Type 0} → World Config Pool → Type 0
IsPaced w = (env : EnvVars) → gather_env_vars w.runtime ≡ ok env → HasPositiveIntervals env

module _ (floats : Floats) where
  refreshing_quiet :
      (interval : ℤ) → pos 0 <ℤ interval → first_panic floats (refreshing interval) ≡ none
  unfolding first_panic start_background_refresh
  refreshing_quiet interval positive = ground (arith, positive)

  monitoring_quiet :
      (interval : ℤ) → pos 0 <ℤ interval → first_panic floats (monitoring interval) ≡ none
  unfolding first_panic start_rate_limit_monitoring
  monitoring_quiet interval positive = ground (arith, positive)

  module _ {Config Pool : Type 0} (w : World Config Pool) (delay : Schedule floats) where
    after_serve-IsCalm :
        (answer : Option GoString) → IsCalm floats delay (after_serve floats w answer).trace
    unfolding after_serve
    after_serve-IsCalm none = tt
    after_serve-IsCalm (some message) = tt

    after_listen-IsCalm :
        (env : EnvVars) (store : Store) (limited : RateLimitedAccounts) (answer : Option GoString)
        → IsCalm floats delay (after_listen floats w env store limited answer).trace
    unfolding after_listen
    after_listen-IsCalm env store limited (some message) = tt
    after_listen-IsCalm env store limited none = (refl, (refl, after_serve-IsCalm w.serve))

    after_metrics-IsCalm :
        (env : EnvVars) (store : Store) (limited : RateLimitedAccounts)
        (answer : Server × Option GoString)
        → IsCalm floats delay (after_metrics floats w env store limited answer).trace
    unfolding after_metrics first_panic
    after_metrics-IsCalm env store limited (server, some message) = (refl, tt)
    after_metrics-IsCalm env store limited (server, none) =
        (refl, (refl, (refl, after_listen-IsCalm env store limited (w.listen (address env.port)))))

    module _ (env : EnvVars) (positive : HasPositiveIntervals env) where
      after_rate_limit_store-IsCalm :
          (store : Store) (answer : Result RateLimitedAccounts × List (MetricOp floats.Float))
          → IsCalm floats delay (after_rate_limit_store floats w env store answer).trace
      unfolding after_rate_limit_store
      after_rate_limit_store-IsCalm store (err message, ops) = (refl, tt)
      after_rate_limit_store-IsCalm store (ok limited, ops) = (
        refl,
        (
          ap (arriving floats (delay (monitoring env.rate_limit_store_refresh_interval)))
              (monitoring_quiet env.rate_limit_store_refresh_interval positive.rate_limit_store),
          after_metrics-IsCalm env store limited
              (serve_metrics (address env.metrics_port) env.image_tag),
        ),
      )

      after_portal_app_store-IsCalm :
          (driver : Driver) (answer : Result Store × List (MetricOp floats.Float))
          → IsCalm floats delay (after_portal_app_store floats w env driver answer).trace
      unfolding after_portal_app_store
      after_portal_app_store-IsCalm driver (err message, ops) = (refl, tt)
      after_portal_app_store-IsCalm driver (ok store, ops) = (
        refl,
        (
          ap (arriving floats (delay (refreshing env.portal_app_store_refresh_interval)))
              (refreshing_quiet env.portal_app_store_refresh_interval positive.portal_app_store),
          after_rate_limit_store-IsCalm store (
              new_rate_limit_store floats (get_account_portal_app store)
                (get_month_to_moment_usage driver free_monthly_relays)),
        ),
      )

      after_warehouse-IsCalm :
          (pool : Pool) (answer : Result Driver)
          → IsCalm floats delay (after_warehouse floats w env pool answer).trace
      unfolding after_warehouse
      after_warehouse-IsCalm pool (err message) = tt
      after_warehouse-IsCalm pool (ok driver) = (
        refl,
        All-append _ _ _
            (after_portal_app_store-IsCalm driver
              (new_portal_app_store floats (get_portal_apps (w.query pool))))
            (refl, tt),
      )

      after_postgres-IsCalm :
          (answer : Result Pool) → IsCalm floats delay (after_postgres floats w env answer).trace
      unfolding after_postgres
      after_postgres-IsCalm (err message) = tt
      after_postgres-IsCalm (ok pool) =
          All-append _ _ _
            (after_warehouse-IsCalm pool
              (new_driver (w.new_client env.gcp_project_id) env.gcp_project_id))
            (refl, tt)

    pools-IsCalm :
        (pools : List (PoolEvent Pool)) → IsCalm floats delay (map (pool_event floats w) pools)
    pools-IsCalm [] = tt
    pools-IsCalm (pool_made pool ∷ pools) = (refl, pools-IsCalm pools)
    pools-IsCalm (pool_closed pool ∷ pools) = (refl, pools-IsCalm pools)

    module _ (positive : IsPaced w) where
      after_env-IsCalm :
          (answer : Result EnvVars)
          → gather_env_vars w.runtime ≡ answer
          → IsCalm floats delay (after_env floats w answer).trace
      unfolding after_env after_connecting
      after_env-IsCalm (err message) h = tt
      after_env-IsCalm (ok env) h =
          let driver = new_grove_postgres_driver w.pgxpool env.postgres_connection_string in
          All-append _ _ _ (pools-IsCalm driver.1)
            (after_postgres-IsCalm env (positive env h) driver.0)

      -- The process does what `main` does.
      pub process-main : process floats delay (main floats w) ≡ main floats w
      unfolding main
      process-main =
          process_calm floats delay (main floats w)
            (refl, after_env-IsCalm (gather_env_vars w.runtime) refl)
