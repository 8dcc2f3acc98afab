-- ===== src/Auth/Handler.antt =====
-- The Check call of Envoy's external authorization service: auth/auth_handler.go. The two stores and the authorizer
-- are the interfaces of the source; a call returns the response (its `error` is always nil) and the
-- metrics that it reports, in order. The time that a call took is an argument.
pub mod View
pub mod Headers
pub mod Cases
pub mod Outcome
pub mod Bodies
pub mod ApiKey
pub mod Answers
pub mod Reports
use path_external_auth_serve.Base.{
  GoString, bytes, GoMap, Result, ok, err, Run, returns, Bool, Option, none, some, List, [], ◌∷◌,
  ◌++◌, if◌then◌else◌, ◌==◌, string_Eq,
}
use path_external_auth_serve.Base.Runs.{◌>>=◌}
use path_external_auth_serve.PortalApp.{PortalAppId, AccountId, Auth, PortalApp}
use path_external_auth_serve.Metrics.{
  MetricOp, record_auth_request, record_rate_limit_check, auth_decision_authorized,
  auth_decision_denied, error_portal_app_not_found, error_unauthorized, error_rate_limited,
  error_http_request_not_found, error_path_not_provided, error_no_portal_app_id,
}
use path_external_auth_serve.Http.{Header, add}
use path_external_auth_serve.Auth.Names.{
  account_rate_limit_message, req_header_portal_app_id, req_header_account_id,
}
use path_external_auth_serve.Auth.Messages.{
  CheckRequest, HttpRequest, get_http, CheckResponse, HeaderValue, StatusCode, bad_request,
  unauthorized, not_found, too_many_requests, get_denied_check_response, get_ok_check_response,
}
use path_external_auth_serve.Auth.Extractor.{extract_portal_app_id}
use path_external_auth_serve.Auth.Authorizer.{Authorizer}

pub record PortalAppStore : Type 0 where
  pub get_portal_app : PortalAppId → Option PortalApp

pub record RateLimitStore : Type 0 where
  pub is_account_rate_limited : AccountId → Bool

pub record AuthHandler : Type 0 where
  pub portal_app_store : PortalAppStore
  pub rate_limit_store : RateLimitStore
  pub api_key_authorizer : Authorizer

abbrev pub new_auth_handler : PortalAppStore → RateLimitStore → Authorizer → AuthHandler
new_auth_handler portal_app_store rate_limit_store api_key_authorizer = record {
  portal_app_store = portal_app_store;
  rate_limit_store = rate_limit_store;
  api_key_authorizer = api_key_authorizer;
}

unfoldable pub get_http_headers : PortalApp → List HeaderValue
get_http_headers portal_app =
    record { key = req_header_portal_app_id; value = portal_app.id }
    ∷ record { key = req_header_account_id; value = portal_app.account_id }
    ∷ []

-- the loop of `convertMapToHeader`
unfoldable pub add_all : Header → GoMap GoString → Header
add_all http_headers [] = http_headers
add_all http_headers ((key, value) ∷ headers_map) = add_all (add http_headers key value) headers_map

unfoldable pub convert_map_to_header : GoMap GoString → Header
unfolding add_all
convert_map_to_header headers_map = add_all [] headers_map

module _ (h : AuthHandler) where
  abbrev pub get_portal_app : PortalAppId → Option PortalApp
  get_portal_app portal_app_id = h.portal_app_store.get_portal_app portal_app_id

  -- the key of the app, if it needs one
  abbrev pub required_key : Option Auth → GoString
  required_key none = []
  required_key (some auth) = auth.api_key

  unfoldable pub check_portal_app_authorized : Header → PortalApp → Run (Option GoString)
  check_portal_app_authorized headers portal_app =
      if required_key portal_app.auth == []
      then returns none
      else h.api_key_authorizer.authorize_request headers portal_app

  module _ {F : Type 0} where
    unfoldable pub check_account_rate_limited : PortalApp → Option GoString × List (MetricOp F)
    check_account_rate_limited portal_app = elim portal_app.rate_limit [
      | none ↦
          (none, record_rate_limit_check portal_app.account_id [] (bytes "no_limit_configured"))
      | some _ ↦
          if h.rate_limit_store.is_account_rate_limited portal_app.account_id
          then (
            some (bytes "account is rate limited"),
            record_rate_limit_check portal_app.account_id portal_app.plan_type
                (bytes "rate_limited"),
          )
          else (
            none,
            record_rate_limit_check portal_app.account_id portal_app.plan_type (bytes "allowed"),
          )
    ]

    module _ (elapsed : F) where
      -- a denial, with the metrics that are recorded before it is returned
      abbrev pub reject :
          (portal_app_id account_id error_type message : GoString)
          → StatusCode
          → CheckResponse × List (MetricOp F)
      reject portal_app_id account_id error_type message http_code = (
        get_denied_check_response message http_code,
        record_auth_request portal_app_id account_id auth_decision_denied error_type elapsed,
      )

      -- `Check` from the rate limit on
      unfoldable pub check_limit :
          PortalAppId
          → PortalApp
          → Option GoString × List (MetricOp F)
          → CheckResponse × List (MetricOp F)
      check_limit portal_app_id portal_app (some _, ops) =
          let (response, later) =
            reject portal_app_id portal_app.account_id error_rate_limited account_rate_limit_message
              too_many_requests in
          (response, ops ++ later)
      check_limit portal_app_id portal_app (none, ops) = (
        get_ok_check_response (get_http_headers portal_app),
        ops
            ++ record_auth_request portal_app_id portal_app.account_id auth_decision_authorized []
                elapsed,
      )

      -- `Check` from the outcome of the authorization on
      unfoldable pub check_authorization :
          PortalAppId → PortalApp → Option GoString → CheckResponse × List (MetricOp F)
      unfolding check_limit check_account_rate_limited
      check_authorization portal_app_id portal_app (some message) =
          reject portal_app_id portal_app.account_id error_unauthorized message unauthorized
      check_authorization portal_app_id portal_app none =
          check_limit portal_app_id portal_app (check_account_rate_limited portal_app)

      -- `Check` from the outcome of `getPortalApp` on
      unfoldable pub check_portal_app :
          Header → PortalAppId → Option PortalApp → Run (CheckResponse × List (MetricOp F))
      unfolding check_authorization check_portal_app_authorized
      check_portal_app headers portal_app_id none = returns (
          reject portal_app_id [] error_portal_app_not_found (bytes "portal app not found")
            not_found)
      check_portal_app headers portal_app_id (some portal_app) = do
        refused ← check_portal_app_authorized headers portal_app
        returns (check_authorization portal_app_id portal_app refused)

      -- `Check` from the outcome of `extractPortalAppID` on
      unfoldable pub check_portal_app_id :
          Header → Result PortalAppId → Run (CheckResponse × List (MetricOp F))
      unfolding check_portal_app
      check_portal_app_id headers (err message) =
          returns (reject [] [] error_no_portal_app_id message bad_request)
      check_portal_app_id headers (ok portal_app_id) =
          check_portal_app headers portal_app_id (get_portal_app portal_app_id)

      -- `Check` from the HTTP request on
      unfoldable pub check_http : Option HttpRequest → Run (CheckResponse × List (MetricOp F))
      unfolding check_portal_app_id convert_map_to_header
      check_http none =
          returns
            (reject [] [] error_http_request_not_found (bytes "HTTP request not found") bad_request)
      check_http (some req) =
          let headers = convert_map_to_header req.headers in
          if req.path == []
          then returns
              (reject [] [] error_path_not_provided (bytes "path not provided") bad_request)
          else check_portal_app_id headers (extract_portal_app_id headers req.path)

      unfoldable pub check : CheckRequest → Run (CheckResponse × List (MetricOp F))
      unfolding check_http get_http
      check check_req = check_http (get_http check_req)
