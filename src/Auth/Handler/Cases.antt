-- ===== src/Auth/Handler/Cases.antt =====
-- Every Check call of auth/auth_handler.go ends in one of the ways of Auth/Handler/View.
use path_external_auth_serve.Base.{
  GoString, bytes, Result, ok, err, Run, returns, panics, Option, none, some, [], ◌++◌, ◌≡◌, ◌≢◌,
  inl, inr, refl, arith, true, Option-cases, Bool-cases, ◌==◌, string_Eq, string_eq_iff, ◌∙◌,
}
use path_external_auth_serve.Base.Runs.{◌>>=◌}
use path_external_auth_serve.PortalApp.{PortalAppId, PortalApp, RateLimit}
use path_external_auth_serve.Metrics.{
  record_auth_request, auth_decision_authorized, error_portal_app_not_found, error_unauthorized,
  error_rate_limited, error_http_request_not_found, error_path_not_provided, error_no_portal_app_id,
}
use path_external_auth_serve.Http.{Header}
use path_external_auth_serve.Auth.Names.{account_rate_limit_message}
use path_external_auth_serve.Auth.Messages.{
  CheckRequest, HttpRequest, get_http, bad_request, unauthorized, not_found, too_many_requests,
  get_denied_check_response, get_ok_check_response,
}
use path_external_auth_serve.Auth.Extractor.{extract_portal_app_id}
use path_external_auth_serve.Auth.Handler.{
  AuthHandler, convert_map_to_header, check_portal_app_authorized, check_account_rate_limited,
  check_portal_app, check_authorization, get_http_headers, reject, check,
}
use path_external_auth_serve.Auth.Handler.View.{
  NamesApp, NamesNone, no_http, no_path, no_id, Finds, IsWithinLimit, unconfigured, allowed, View,
  invalid, unknown, refused, crashed, limited, granted,
}

module _ (h : AuthHandler) where
  module _ {F : Type 0} (elapsed : F) (req : CheckRequest) where
    -- `check` from the lookup of a named app on.
    pub check_names :
        (headers : Header) (id : PortalAppId)
        → NamesApp req headers id
        → check h elapsed req
          ≡ check_portal_app h elapsed headers id (h.portal_app_store.get_portal_app id)
    unfolding check
    check_names headers id names = ground (arith, names, string_eq_iff names.http.path [])

    pub check-Finds :
        (headers : Header) (id : PortalAppId) (app : PortalApp)
        → Finds h req headers id app
        → check h elapsed req ≡ (do
          outcome ← check_portal_app_authorized h headers app
          returns (check_authorization h elapsed id app outcome))
    unfolding check_portal_app
    check-Finds headers id app finds = check_names headers id finds.names ∙ rw finds.found

    -- An authorized request within the limit gets the app's headers.
    pub granted_run :
        (headers : Header) (id : PortalAppId) (app : PortalApp)
        → Finds h req headers id app
        → check_portal_app_authorized h headers app ≡ returns none
        → IsWithinLimit h app
        → check h elapsed req
          ≡ returns (
            get_ok_check_response (get_http_headers app),
            (check_account_rate_limited h app).1
                ++ record_auth_request id app.account_id auth_decision_authorized [] elapsed,
          )
    unfolding check_authorization
    granted_run headers id app finds authorized within =
        let run : check h elapsed req ≡ returns (check_authorization h elapsed id app none) =
          check-Finds headers id app finds ∙ (rw authorized) in
        elim within [
          | unconfigured none_set ↦ ground (arith, run)
          | allowed limit set free ↦ ground (arith, run)
        ]

    -- An authorized request over the limit is denied.
    pub limited_run :
        (headers : Header) (id : PortalAppId) (app : PortalApp) (limit : RateLimit)
        → Finds h req headers id app
        → check_portal_app_authorized h headers app ≡ returns none
        → app.rate_limit ≡ some limit
        → h.rate_limit_store.is_account_rate_limited app.account_id ≡ true
        → check h elapsed req
          ≡ returns (
            get_denied_check_response account_rate_limit_message too_many_requests,
            (check_account_rate_limited h app).1
                ++ (reject h elapsed id app.account_id error_rate_limited account_rate_limit_message
                    too_many_requests).1,
          )
    unfolding check_authorization
    limited_run headers id app limit finds authorized set over =
        let run : check h elapsed req ≡ returns (check_authorization h elapsed id app none) =
          check-Finds headers id app finds ∙ (rw authorized) in
        ground (arith, run)

    pub invalid_run :
        (error_type message : GoString)
        → NamesNone req error_type message
        → check h elapsed req ≡ returns (reject h elapsed [] [] error_type message bad_request)
    unfolding check
    invalid_run error_type message (no_http absent e m) = ground (arith, absent, e, m)
    invalid_run error_type message (no_path http present empty e m) =
        ground (arith, present, string_eq_iff http.path [], e, m)
    invalid_run error_type message (no_id http present has_path unnamed e) =
        ground (arith, present, string_eq_iff http.path [], unnamed, e)

    -- The outcomes of a request that the authorization lets through.
    authorized_view :
        (headers : Header) (id : PortalAppId) (app : PortalApp)
        → Finds h req headers id app
        → check_portal_app_authorized h headers app ≡ returns none
        → View h elapsed req
    authorized_view headers id app finds authorized = elim (Option-cases app.rate_limit) [
      | inl none_set ↦
          let within = unconfigured none_set in
          granted headers id app finds authorized within
            (granted_run headers id app finds authorized within)
      | inr (limit, set) ↦
          elim (Bool-cases (h.rate_limit_store.is_account_rate_limited app.account_id)) [
            | inl over ↦
                limited headers id app limit finds authorized set over
                  (limited_run headers id app limit finds authorized set over)
            | inr free ↦
                let within = allowed limit set free in
                granted headers id app finds authorized within
                  (granted_run headers id app finds authorized within)
          ]
    ]

    pub refused_run :
        (headers : Header) (id : PortalAppId) (app : PortalApp) (message : GoString)
        → Finds h req headers id app
        → check_portal_app_authorized h headers app ≡ returns (some message)
        → check h elapsed req
          ≡ returns (reject h elapsed id app.account_id error_unauthorized message unauthorized)
    refused_run headers id app message finds e =
        check-Finds headers id app finds ∙ (rw e (unfold check_authorization in refl))

    pub unknown_run :
        (headers : Header) (id : PortalAppId)
        → NamesApp req headers id
        → h.portal_app_store.get_portal_app id ≡ none
        → check h elapsed req
          ≡ returns (
              reject h elapsed id [] error_portal_app_not_found
                (bytes "portal app not found")
                not_found)
    unknown_run headers id names missing =
        check_names headers id names ∙ (rw missing (unfold check_portal_app in refl))

    found_view :
        (headers : Header) (id : PortalAppId) (app : PortalApp)
        → Finds h req headers id app
        → (outcome : Run (Option GoString)) → check_portal_app_authorized h headers app ≡ outcome
        → View h elapsed req
    found_view headers id app finds (returns none) e = authorized_view headers id app finds e
    found_view headers id app finds (returns (some message)) e =
        refused headers id app message finds e (refused_run headers id app message finds e)
    found_view headers id app finds (panics message) e =
        crashed headers id app message finds e (check-Finds headers id app finds ∙ (rw e))

    named_view :
        (headers : Header) (id : PortalAppId) → NamesApp req headers id → View h elapsed req
    named_view headers id names = elim (Option-cases (h.portal_app_store.get_portal_app id)) [
      | inl missing ↦ unknown headers id names missing (unknown_run headers id names missing)
      | inr (app, found) ↦
          found_view headers id app (record { names = names; found = found }) _ refl
    ]

    http_view_full :
        (http : HttpRequest) (outcome : Result PortalAppId)
        → get_http req ≡ some http
        → http.path ≢ []
        → extract_portal_app_id (convert_map_to_header http.headers) http.path ≡ outcome
        → View h elapsed req
    unfolding check
    http_view_full http (ok id) present has_path e =
        named_view (convert_map_to_header http.headers) id (record {
          http = http;
          present = present;
          has_path = has_path;
          converted = refl;
          named = e;
        })
    http_view_full http (err message) present has_path e =
        invalid error_no_portal_app_id message (no_id http present has_path e refl)
          (ground (arith, present, string_eq_iff http.path [], e))

    -- The outcomes of a request with an HTTP request.
    http_view :
        (http : HttpRequest) (outcome : Result PortalAppId)
        → get_http req ≡ some http
        → extract_portal_app_id (convert_map_to_header http.headers) http.path ≡ outcome
        → View h elapsed req
    unfolding check
    http_view http outcome present e = elim (Bool-cases (http.path == [])) [
      | inl empty ↦
          invalid error_path_not_provided (bytes "path not provided")
            (no_path http present ((string_eq_iff http.path []).0 empty) refl refl)
            (ground (arith, present, empty))
      | inr full ↦
          http_view_full http outcome present (λ p. cc ((string_eq_iff http.path []).1 p, full)) e
    ]

    -- Every call ends in one of the ways of a View.
    pub check_view : View h elapsed req
    unfolding check
    check_view = elim (Option-cases (get_http req)) [
      | inl absent ↦
          invalid error_http_request_not_found (bytes "HTTP request not found")
            (no_http absent refl refl) (rw absent)
      | inr (http, present) ↦ http_view http _ present refl
    ]
