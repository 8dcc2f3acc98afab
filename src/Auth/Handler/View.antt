-- ===== src/Auth/Handler/View.antt =====
-- The ways in which a Check call of auth/auth_handler.go can end, as one case analysis.
use path_external_auth_serve.Base.{
  GoString, bytes, ok, err, returns, panics, none, some, [], ◌++◌, ◌≡◌, ◌≢◌, true, false, string_Eq,
}
use path_external_auth_serve.PortalApp.{PortalAppId, PortalApp, RateLimit}
use path_external_auth_serve.Metrics.{
  record_auth_request, auth_decision_authorized, error_portal_app_not_found, error_unauthorized,
  error_rate_limited, error_http_request_not_found, error_path_not_provided, error_no_portal_app_id,
}
use path_external_auth_serve.Http.{Header}
use path_external_auth_serve.Auth.Names.{account_rate_limit_message}
use path_external_auth_serve.Auth.Messages.{
  CheckRequest, HttpRequest, get_http, bad_request, unauthorized, not_found, too_many_requests,
  get_denied_check_response, get_ok_check_response,
}
use path_external_auth_serve.Auth.Extractor.{extract_portal_app_id}
use path_external_auth_serve.Auth.Handler.{
  AuthHandler, convert_map_to_header, check_portal_app_authorized, check_account_rate_limited,
  get_http_headers, reject, check,
}

-- The request names a portal app, by these headers or its path.
pub record NamesApp (req : CheckRequest) (headers : Header) (id : PortalAppId) : Type 0 where
  pub http : HttpRequest
  pub present : get_http req ≡ some http
  pub has_path : http.path ≢ []
  pub converted : headers ≡ convert_map_to_header http.headers
  pub named : extract_portal_app_id headers http.path ≡ ok id

-- It names none, for this reason.
pub data NamesNone (req : CheckRequest) : GoString → GoString → Type 0 where
  no_http :
      {error_type message : GoString}
      → get_http req ≡ none
      → error_type ≡ error_http_request_not_found
      → message ≡ bytes "HTTP request not found"
      → NamesNone req error_type message
  no_path :
      {error_type message : GoString} (http : HttpRequest)
      → get_http req ≡ some http
      → http.path ≡ []
      → error_type ≡ error_path_not_provided
      → message ≡ bytes "path not provided"
      → NamesNone req error_type message
  no_id :
      {error_type message : GoString} (http : HttpRequest)
      → get_http req ≡ some http
      → http.path ≢ []
      → extract_portal_app_id (convert_map_to_header http.headers) http.path ≡ err message
      → error_type ≡ error_no_portal_app_id
      → NamesNone req error_type message

module _ (h : AuthHandler) where
  -- The request names this app, and the store has it.
  pub record Finds (req : CheckRequest) (headers : Header) (id : PortalAppId) (app : PortalApp)
      : Type 0 where
    pub names : NamesApp req headers id
    pub found : h.portal_app_store.get_portal_app id ≡ some app

  pub data IsWithinLimit (app : PortalApp) : Type 0 where
    unconfigured : app.rate_limit ≡ none → IsWithinLimit app
    allowed :
        (limit : RateLimit)
        → app.rate_limit ≡ some limit
        → h.rate_limit_store.is_account_rate_limited app.account_id ≡ false
        → IsWithinLimit app

  module _ {F : Type 0} (elapsed : F) (req : CheckRequest) where
    -- One constructor for each way to end, with its conditions and what `check` returns then.
    pub data View : Type 0 where
      invalid :
          (error_type message : GoString)
          → NamesNone req error_type message
          → check h elapsed req ≡ returns (reject h elapsed [] [] error_type message bad_request)
          → View
      unknown :
          (headers : Header) (id : PortalAppId)
          → NamesApp req headers id
          → h.portal_app_store.get_portal_app id ≡ none
          → check h elapsed req
            ≡ returns (
                reject h elapsed id [] error_portal_app_not_found
                  (bytes "portal app not found")
                  not_found)
          → View
      refused :
          (headers : Header) (id : PortalAppId) (app : PortalApp) (message : GoString)
          → Finds req headers id app
          → check_portal_app_authorized h headers app ≡ returns (some message)
          → check h elapsed req
            ≡ returns (reject h elapsed id app.account_id error_unauthorized message unauthorized)
          → View
      crashed :
          (headers : Header) (id : PortalAppId) (app : PortalApp) (message : GoString)
          → Finds req headers id app
          → check_portal_app_authorized h headers app ≡ panics message
          → check h elapsed req ≡ panics message
          → View
      limited :
          (headers : Header) (id : PortalAppId) (app : PortalApp) (limit : RateLimit)
          → Finds req headers id app
          → check_portal_app_authorized h headers app ≡ returns none
          → app.rate_limit ≡ some limit
          → h.rate_limit_store.is_account_rate_limited app.account_id ≡ true
          → check h elapsed req
            ≡ returns (
              get_denied_check_response account_rate_limit_message too_many_requests,
              (check_account_rate_limited h app).1
                  ++ (reject h elapsed id app.account_id error_rate_limited
                      account_rate_limit_message too_many_requests).1,
            )
          → View
      granted :
          (headers : Header) (id : PortalAppId) (app : PortalApp)
          → Finds req headers id app
          → check_portal_app_authorized h headers app ≡ returns none
          → IsWithinLimit app
          → check h elapsed req
            ≡ returns (
              get_ok_check_response (get_http_headers app),
              (check_account_rate_limited h app).1
                  ++ record_auth_request id app.account_id auth_decision_authorized [] elapsed,
            )
          → View
