-- ===== src/Tests/Checks.antt =====
-- The Check call at sample requests.
use path_external_auth_serve.Base.{
  pos, bytes, string_eq, has_prefix, trim_prefix, split, lookup, insert, format_nat, ℕ, pos,
  returns, none, some, List, [], ◌∷◌, ◌++◌, ◌≡◌, ◌≢◌, refl,
}
use path_external_auth_serve.PortalApp.{PortalApp, Auth}
use path_external_auth_serve.Http.{add, get}
use path_external_auth_serve.Metrics.{MetricOp, record_auth_request, record_rate_limit_check}
use path_external_auth_serve.RateLimit.{is_account_rate_limited}
use path_external_auth_serve.Auth.Names.{account_rate_limit_message, auth_header_key}
use path_external_auth_serve.Auth.Messages.{
  CheckResponse, code_ok, code_permission_denied, denied_response, bad_request, unauthorized,
  not_found, too_many_requests, get_http, get_denied_check_response, get_ok_check_response,
  err_body,
}
use path_external_auth_serve.Auth.Extractor.{extract_portal_app_id}
use path_external_auth_serve.Auth.Authorizer.{authorize_request}
use path_external_auth_serve.Auth.Authorizer.Keys.{Presents, bearer}
use path_external_auth_serve.Auth.Handler.{
  AuthHandler, get_http_headers, convert_map_to_header, check,
}
use path_external_auth_serve.Auth.Handler.ApiKey.{handler, check_returns, check_ok-Presents}
use path_external_auth_serve.Json.Reader.{plain, read_string}
use path_external_auth_serve.Auth.Handler.Bodies.{body_start, denied_body_read_back}
use path_external_auth_serve.Auth.Handler.Outcome.{
  IsAdmitted, DeniedBecause, Forwards, check_ok_sound, check_denied_sound,
}
use path_external_auth_serve.Auth.Handler.Answers.{
  IsEntitled, MustDeny, Denies, check_ok_complete, check_denied_complete,
}
use path_external_auth_serve.Auth.Handler.Reports.{auth_statuses, decision_of, check_counts_once}
use path_external_auth_serve.Auth.Handler.View.{no_http, allowed}
use path_external_auth_serve.Tests.Samples.{
  apps, limits, keyed_app, by_path, wrong_key, by_header, stray,
}

abbrev pub the_handler : AuthHandler
the_handler = handler apps limits

abbrev pub elapsed : ℕ
elapsed = 7

-- What the tests below compute with.
running : Unit {0}
unfolding check get_http extract_portal_app_id authorize_request add get has_prefix trim_prefix
    split lookup insert bytes string_eq is_account_rate_limited
running = tt

-- What is reported for a request that is let through.
abbrev pub granted_ops : List (MetricOp ℕ)
granted_ops =
    record_rate_limit_check (bytes "acc1") (bytes "PLAN_FREE") (bytes "allowed")
    ++ record_auth_request (bytes "app1") (bytes "acc1") (bytes "authorized") [] elapsed

abbrev unauthorized_ops : List (MetricOp ℕ)
unauthorized_ops =
    record_auth_request (bytes "app1") (bytes "acc1") (bytes "denied") (bytes "unauthorized")
      elapsed

pub by_path_run :
    check the_handler elapsed by_path
    ≡ returns (get_ok_check_response (get_http_headers keyed_app), granted_ops)
unfolding running
by_path_run = refl

wrong_key_run :
    check the_handler elapsed wrong_key
    ≡ returns (get_denied_check_response (bytes "unauthorized") unauthorized, unauthorized_ops)
unfolding running
wrong_key_run = refl

other_runs :
    ((check the_handler elapsed stray)
      ≡ returns (
        get_denied_check_response (bytes "portal app not found") not_found,
        record_auth_request
            (bytes "app9")
            []
            (bytes "denied")
            (bytes "portal_app_not_found")
            elapsed,
      ))
    × (check the_handler elapsed by_header
        ≡ returns (
          get_denied_check_response account_rate_limit_message too_many_requests,
          record_rate_limit_check (bytes "acc2") (bytes "PLAN_UNLIMITED") (bytes "rate_limited")
              ++ record_auth_request
                  (bytes "app2")
                  (bytes "acc2")
                  (bytes "denied")
                  (bytes "rate_limited")
                  elapsed,
        ))
    × (check the_handler elapsed (record { attributes = none })
        ≡ returns (
          get_denied_check_response (bytes "HTTP request not found") bad_request,
          record_auth_request [] []
              (bytes "denied")
              (bytes "invalid_request_http_request_not_found")
              elapsed,
        ))
unfolding running
other_runs = (refl, refl, refl)

-- The body of the documentation's example.
body_test :
    err_body not_found (bytes "portal app not found")
    ≡ bytes "{\"code\": 404, \"message\": \"portal app not found\"}"
unfolding err_body format_nat bytes
body_test = refl

check_returns_example :
    (response : CheckResponse) × (ops : List (MetricOp ℕ)) × (check the_handler elapsed wrong_key
      ≡ returns (response, ops))
check_returns_example = check_returns apps limits elapsed wrong_key

is_ok : (get_ok_check_response (get_http_headers keyed_app)).code ≡ code_ok
unfolding get_ok_check_response
is_ok = refl

check_ok-Presents_example :
    (app : PortalApp) × (admitted : IsAdmitted the_handler by_path app) × ((auth : Auth)
      → app.auth ≡ some auth
      → auth.api_key ≢ []
      → Presents (get admitted.headers auth_header_key) auth.api_key)
check_ok-Presents_example =
    check_ok-Presents apps limits elapsed by_path
      (get_ok_check_response (get_http_headers keyed_app)) granted_ops by_path_run is_ok

check_ok_sound_example :
    (app : PortalApp) × IsAdmitted the_handler by_path app
    × Forwards (get_ok_check_response (get_http_headers keyed_app)) app
check_ok_sound_example =
    check_ok_sound the_handler elapsed by_path (get_ok_check_response (get_http_headers keyed_app))
      granted_ops by_path_run is_ok

entitled : IsEntitled apps limits by_path keyed_app
unfolding running convert_map_to_header
entitled = record {
  headers = convert_map_to_header ((bytes "authorization", bytes "Bearer k3y") ∷ []);
  id = bytes "app1";
  finds = record {
    names = record {
      http = record {
        path = bytes "/v1/app1/eth";
        headers = (bytes "authorization", bytes "Bearer k3y") ∷ [];
      };
      present = refl;
      has_path = (cc);
      converted = refl;
      named = refl;
    };
    found = refl;
  };
  presented = λ auth set key. bearer (cc set);
  within = allowed (record { monthly_user_limit = pos 0 }) refl refl;
}

check_ok_complete_example :
    (response : CheckResponse) × (ops : List (MetricOp ℕ)) × (check
        (handler apps limits)
        elapsed
        by_path
      ≡ returns (response, ops))
    × Forwards response keyed_app
check_ok_complete_example = check_ok_complete apps limits elapsed by_path keyed_app entitled

abbrev denial : CheckResponse
denial = get_denied_check_response (bytes "unauthorized") unauthorized

is_denied :
    denial.http_response
    ≡ denied_response unauthorized (err_body unauthorized (bytes "unauthorized"))
unfolding get_denied_check_response
is_denied = refl

check_denied_sound_example :
    DeniedBecause the_handler wrong_key unauthorized
    × (denial.code ≡ code_permission_denied)
    × (err_body unauthorized (bytes "unauthorized") ≡ err_body unauthorized denial.message)
check_denied_sound_example =
    check_denied_sound the_handler elapsed wrong_key denial unauthorized_ops wrong_key_run is_denied

denied_body_read_back_example :
    (err_body unauthorized (bytes "unauthorized")
      ≡ body_start unauthorized ++ (denial.message ++ bytes "\"}"))
    × (read_string plain (denial.message ++ bytes "\"}") ≡ some (denial.message, bytes "}"))
denied_body_read_back_example =
    denied_body_read_back apps limits elapsed wrong_key denial unauthorized_ops wrong_key_run
      is_denied

no_request :
    MustDeny apps limits (record { attributes = none }) bad_request (bytes "HTTP request not found")
unfolding get_http
no_request = (_, no_http refl refl refl)

check_denied_complete_example :
    (response : CheckResponse) × (ops : List (MetricOp ℕ)) × (check
        (handler apps limits)
        elapsed
        (record { attributes = none })
      ≡ returns (response, ops))
    × Denies response bad_request (bytes "HTTP request not found")
check_denied_complete_example =
    check_denied_complete apps limits elapsed (record { attributes = none }) bad_request
      (bytes "HTTP request not found") no_request

check_counts_once_example :
    auth_statuses granted_ops
    ≡ some (decision_of (get_ok_check_response (get_http_headers keyed_app)).http_response) ∷ []
check_counts_once_example =
    check_counts_once the_handler elapsed by_path
      (get_ok_check_response (get_http_headers keyed_app)) granted_ops by_path_run
