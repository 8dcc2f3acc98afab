-- ===== src/Tests/Samples.antt =====
-- Sample data for the tests.
use path_external_auth_serve.Base.{
  GoString, bytes, ℤ, pos, format_int, GoMap, Bool, true, none, some, [], ◌∷◌, lookup,
}
use path_external_auth_serve.PortalApp.{PortalApp}
use path_external_auth_serve.Grove.{plan_free, plan_unlimited}
use path_external_auth_serve.Metrics.{Floats}
use path_external_auth_serve.RateLimit.{is_account_rate_limited}
use path_external_auth_serve.Auth.Messages.{CheckRequest}
use path_external_auth_serve.Auth.Handler.{PortalAppStore, RateLimitStore}

abbrev pub floats : Floats
floats = record { Float = ℤ; of_int = λ z. z; fixed2 = format_int }

-- An app of a free account, with an API key.
abbrev pub keyed_app : PortalApp
keyed_app = record {
  id = bytes "app1";
  account_id = bytes "acc1";
  plan_type = plan_free;
  auth = some (record { api_key = bytes "k3y" });
  rate_limit = some (record { monthly_user_limit = pos 0 });
}

-- An app of an unlimited account with a custom limit, with no key.
abbrev pub open_app : PortalApp
open_app = record {
  id = bytes "app2";
  account_id = bytes "acc2";
  plan_type = plan_unlimited;
  auth = none;
  rate_limit = some (record { monthly_user_limit = pos 5_000_000 });
}

abbrev pub two_apps : GoMap PortalApp
two_apps = (bytes "app1", keyed_app) ∷ (bytes "app2", open_app) ∷ []

abbrev pub apps : PortalAppStore
apps = record { get_portal_app = λ id. lookup id two_apps }

-- The second account is rate limited.
abbrev pub limited_accounts : GoMap Bool
limited_accounts = (bytes "acc2", true) ∷ []

abbrev pub limits : RateLimitStore
limits = record { is_account_rate_limited = is_account_rate_limited limited_accounts }

abbrev pub request : GoString → GoMap GoString → CheckRequest
request path headers = record {
  attributes = some (record {
    request = some (record { http = some (record { path = path; headers = headers }) });
  });
}

-- A request for the first app by its path, with the key.
abbrev pub by_path : CheckRequest
by_path = request (bytes "/v1/app1/eth") ((bytes "authorization", bytes "Bearer k3y") ∷ [])

-- The same with a wrong key.
abbrev pub wrong_key : CheckRequest
wrong_key = request (bytes "/v1/app1/eth") ((bytes "authorization", bytes "Bearer nope") ∷ [])

-- A request for the second app by its header.
abbrev pub by_header : CheckRequest
by_header = request (bytes "/") ((bytes "portal-application-id", bytes "app2") ∷ [])

-- A request for an app that is not there.
abbrev pub stray : CheckRequest
stray = request (bytes "/v1/app9") []
