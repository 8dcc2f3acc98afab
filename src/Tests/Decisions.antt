-- ===== src/Tests/Decisions.antt =====
-- The decision about a sample request, from one row of Postgres and one usage.
use path_external_auth_serve.Base.{
  ok, none, GoString, ℕ, ℤ, GoMap, HasDistinctKeys, has_prefix, trim_prefix, split, ◌++◌, bytes,
  lookup, insert, string_eq, returns, pos, List, [], ◌∷◌, ◌≡◌, refl,
}
use path_external_auth_serve.Metrics.{MetricOp, record_rate_limit_check, record_auth_request}
use path_external_auth_serve.Http.{Header, add, get, canonical_key}
use path_external_auth_serve.Grove.{
  select_portal_apps, get_portal_apps, SelectPortalAppsRow, plan_free,
  sqlc_portal_apps_to_portal_apps,
}
use path_external_auth_serve.Store.{
  set_portal_apps_by_account_id, get_portal_app, get_account_portal_app, set_store_data,
}
use path_external_auth_serve.RateLimit.{is_account_rate_limited, update_rate_limited_accounts_map}
use path_external_auth_serve.Auth.Messages.{CheckResponse, get_http, get_ok_check_response}
use path_external_auth_serve.Auth.Authorizer.{authorize_request}
use path_external_auth_serve.Auth.Extractor.{extract_portal_app_id}
use path_external_auth_serve.Auth.Handler.{check, convert_map_to_header, get_http_headers}
use path_external_auth_serve.Auth.Handler.View.{NamesApp}
use path_external_auth_serve.Main.Decisions.Plans.{stored, limited_by, Accounts}
use path_external_auth_serve.Dwh.{BigQuery, get_month_to_moment_usage}
use path_external_auth_serve.Main.{World}
use path_external_auth_serve.Main.Ready.{IsReady}
use path_external_auth_serve.Main.Decisions.Admission.{handler_of_main}
use path_external_auth_serve.Tests.Samples.{floats, by_path, keyed_app}
use path_external_auth_serve.Tests.Startup.{keyed_row, world}
use path_external_auth_serve.Tests.Settings.{TheOne, config, gathered_run, connection_formed}

-- Every account is free.
abbrev free_accounts : Accounts
free_accounts = record { plan = λ a. plan_free; monthly_user_limit = λ a. pos 0 }

abbrev pub rows : List SelectPortalAppsRow
rows = keyed_row ∷ []

abbrev usages : GoMap ℤ
usages = (bytes "acc1", pos 1_000_000) ∷ []

usages-HasDistinctKeys : HasDistinctKeys usages
unfolding lookup
usages-HasDistinctKeys = (refl, tt)

abbrev pub headers : Header
headers = (bytes "Authorization", bytes "Bearer k3y" ∷ []) ∷ []

unfoldable pub computing : Unit {0}
unfolding check convert_map_to_header get_http authorize_request add get has_prefix trim_prefix
    split set_portal_apps_by_account_id extract_portal_app_id canonical_key lookup insert string_eq
    bytes get_portal_app get_account_portal_app set_store_data is_account_rate_limited
    update_rate_limited_accounts_map sqlc_portal_apps_to_portal_apps get_portal_apps
    get_month_to_moment_usage
computing = tt

pub by_path-NamesApp : NamesApp by_path headers (bytes "app1")
unfolding computing
by_path-NamesApp = record {
  http = record {
    path = bytes "/v1/app1/eth";
    headers = (bytes "authorization", bytes "Bearer k3y") ∷ [];
  };
  present = refl;
  has_path = (cc);
  converted = refl;
  named = refl;
}

abbrev pub elapsed : ℕ
elapsed = 3

abbrev pub response : CheckResponse
response = get_ok_check_response (get_http_headers keyed_app)

abbrev pub ops : List (MetricOp ℕ)
ops =
    record_rate_limit_check (bytes "acc1") plan_free (bytes "allowed")
    ++ record_auth_request (bytes "app1") (bytes "acc1") (bytes "authorized") [] elapsed

-- At the limit, and not above it.
pub run :
    check (handler_of_main floats free_accounts rows usages) elapsed by_path
    ≡ returns (response, ops)
unfolding computing
run = refl

abbrev usage : BigQuery
usage query = ok (ok (record { account_id = bytes "acc1"; total_relays = pos 1_000_000 }) ∷ [])

-- The world of the startup, with an account at its limit.
abbrev pub at_limit : World TheOne TheOne
at_limit = record (world none none) { new_client = λ project. ok usage }

abbrev pub ready : IsReady floats at_limit (stored rows) (limited_by floats rows usages)
unfolding computing
ready = record {
  env = config;
  configured = gathered_run;
  pool = tt;
  connected = record {
    well_formed = connection_formed;
    config = tt;
    read = refl;
    made = refl;
    answers = refl;
  };
  big_query = usage;
  client = refl;
  portal_apps = sqlc_portal_apps_to_portal_apps rows;
  fetched = refl;
  loaded = refl;
  limits = refl;
  bound = refl;
}

pub scanned : select_portal_apps (at_limit.query tt) ≡ ok rows
unfolding select_portal_apps
scanned = refl

pub usage_asked :
    (query : GoString)
    → ready.big_query query
      ≡ ok (ok (record { account_id = bytes "acc1"; total_relays = pos 1_000_000 }) ∷ [])
unfolding ready
usage_asked query = refl
