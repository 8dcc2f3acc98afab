-- ===== src/Tests/Startup.antt =====
-- The startup in a sample world: one app, whose account is over its limit.
use path_external_auth_serve.Base.{
  GoString, bytes, string_eq, lookup, insert, pos, true, ok, Option, none, some, [], ◌∷◌, ◌≡◌, ◌↔◌,
  refl, ◌++◌, negsuc, arith, subst,
}
use path_external_auth_serve.Base.Runs.{panics}
use path_external_auth_serve.Grove.{get_portal_apps, SelectPortalAppsRow, plan_free}
use path_external_auth_serve.Grove.Driver.{new_grove_postgres_driver}
use path_external_auth_serve.Metrics.Server.{serve_metrics}
use path_external_auth_serve.Dwh.{BigQuery, new_driver, get_month_to_moment_usage}
use path_external_auth_serve.Env.{Runtime, gather_env_vars, port_env}
use path_external_auth_serve.Store.{
  Store, new_portal_app_store, get_account_portal_app, set_portal_apps_by_account_id,
}
use path_external_auth_serve.RateLimit.{new_rate_limit_store, RateLimitedAccounts}
use path_external_auth_serve.Main.{World, main}
use path_external_auth_serve.Main.Effects.{postgres, warehouse}
use path_external_auth_serve.Main.Connections.{open_after}
use path_external_auth_serve.Main.Stages.{served, listened}
use path_external_auth_serve.Main.Ready.{IsReady, main_serves_iff}
use path_external_auth_serve.Main.Process.{Schedule, process}
use path_external_auth_serve.Main.Calm.{HasPositiveIntervals, IsPaced}
use path_external_auth_serve.Main.Serving.{
  process_serves_iff, process_closes_connections, process_listens_on_given_port,
  negative_interval_ends_process,
}
use path_external_auth_serve.Tests.Samples.{floats, keyed_app}
use path_external_auth_serve.Tests.Settings.{
  runtime, runtime_with, config, config_with, gathered_run, hasty_gathered_run, connection_formed,
  port_given, TheOne, pgxpool,
}

abbrev pub keyed_row : SelectPortalAppsRow
keyed_row = record {
  id = bytes "app1";
  secret_key = some (bytes "k3y");
  secret_key_required = some true;
  account_id = some (bytes "acc1");
  plan = some plan_free;
  monthly_user_limit = none;
}

abbrev usage : BigQuery
usage query = ok (ok (record { account_id = bytes "acc1"; total_relays = pos 1_000_001 }) ∷ [])

-- What Postgres and the listening answer is left open.
abbrev pub world_with : Runtime → Option GoString → Option GoString → World TheOne TheOne
world_with settings ping listen = record {
  runtime = settings;
  pgxpool = pgxpool ping;
  query = λ pool. ok (record { scans = ok keyed_row ∷ []; failure = none });
  new_client = λ project. ok usage;
  listen = λ address. listen;
  serve = some (bytes "accept: closed");
}

abbrev pub world : Option GoString → Option GoString → World TheOne TheOne
world = world_with runtime

abbrev loaded : Store
loaded = record {
  portal_apps = (bytes "app1", keyed_app) ∷ [];
  account_portal_apps = (bytes "acc1", keyed_app) ∷ [];
}

abbrev over_limit : RateLimitedAccounts
over_limit = (bytes "acc1", true) ∷ []

main_runs :
    (served (main floats (world none none)).trace ≡ some (loaded, over_limit))
    × ((main floats (world none none)).end ≡ panics (bytes "accept: closed"))
    × ((main floats (world (some (bytes "timeout")) none)).end
        ≡ panics (bytes "failed to connect to postgres: failed to ping database: timeout"))
    × ((main floats (world none (some (bytes "in use")))).end ≡ panics (bytes "in use"))
unfolding main gather_env_vars new_grove_postgres_driver bytes lookup string_eq new_driver
    new_portal_app_store get_portal_apps new_rate_limit_store insert set_portal_apps_by_account_id
    get_month_to_moment_usage get_account_portal_app serve_metrics
main_runs = (refl, refl, refl, refl)

-- Every goroutine is run two events of `main` later.
abbrev delay : Schedule floats
delay g = 2

paced : (ping listen : Option GoString) → IsPaced (world ping listen)
paced ping listen env h =
    let same : config ≡ env = cc (gathered_run, h) in
    subst HasPositiveIntervals same
      (record { portal_app_store = omega arith; rate_limit_store = omega arith })

process_closes_connections_example :
    open_after [] (process floats delay (main floats (world (some (bytes "timeout")) none))).trace
    ≡ []
process_closes_connections_example =
    process_closes_connections floats (world (some (bytes "timeout")) none) delay
      (paced (some (bytes "timeout")) none)

process_serves_iff_example :
    (served (process floats delay (main floats (world none none))).trace
      ≡ some (loaded, over_limit))
    ↔ IsReady floats (world none none) loaded over_limit
process_serves_iff_example =
    process_serves_iff floats (world none none) delay loaded over_limit (paced none none)

serves : served (main floats (world none none)).trace ≡ some (loaded, over_limit)
serves = main_runs.0

process_listens_on_given_port_example :
    listened (process floats delay (main floats (world none none))).trace
    ≡ some (bytes ":" ++ runtime.getenv port_env)
process_listens_on_given_port_example =
    process_listens_on_given_port floats (world none none) delay loaded over_limit (pos 8080)
      (paced none none) ((main_serves_iff floats (world none none) loaded over_limit).0 serves)
      (record { below = omega arith; above = omega arith }) (λ e. cc e) port_given

-- The world of a negative interval, with its goroutines run at once.
abbrev hasty : World TheOne TheOne
hasty = world_with (runtime_with (bytes "-30s")) none none

abbrev hasty_ready : IsReady floats hasty loaded over_limit
unfolding gather_env_vars new_grove_postgres_driver bytes lookup string_eq new_driver
    new_portal_app_store get_portal_apps new_rate_limit_store insert set_portal_apps_by_account_id
    get_month_to_moment_usage get_account_portal_app serve_metrics
hasty_ready = record {
  env = config_with (negsuc 29_999_999_999);
  configured = hasty_gathered_run;
  pool = tt;
  connected = record {
    well_formed = connection_formed;
    config = tt;
    read = refl;
    made = refl;
    answers = refl;
  };
  big_query = usage;
  client = refl;
  portal_apps = (bytes "app1", keyed_app) ∷ [];
  fetched = refl;
  loaded = refl;
  limits = refl;
  bound = refl;
}

negative_interval_ends_process_example :
    ((process floats (λ g. 0) (main floats hasty)).end
      ≡ panics (bytes "non-positive interval for NewTicker"))
    × (served (process floats (λ g. 0) (main floats hasty)).trace ≡ none)
    × (open_after [] (process floats (λ g. 0) (main floats hasty)).trace
        ≡ warehouse ∷ postgres ∷ [])
unfolding hasty_ready
negative_interval_ends_process_example =
    negative_interval_ends_process floats hasty (λ g. 0) loaded over_limit hasty_ready (omega arith)
      refl
