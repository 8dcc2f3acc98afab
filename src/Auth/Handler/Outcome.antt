-- ===== src/Auth/Handler/Outcome.antt =====
-- What a response of the Check call of auth/auth_handler.go says about the request.
use path_external_auth_serve.Base.{
  GoString, bytes, [], ◌∷◌, refl, returns, none, some, List, ◌≡◌, subst, arith, true, string_Eq,
}
use path_external_auth_serve.PortalApp.{PortalAppId, PortalApp, RateLimit}
use path_external_auth_serve.Metrics.{MetricOp}
use path_external_auth_serve.Http.{Header}
use path_external_auth_serve.Auth.Messages.{
  CheckRequest, CheckResponse, code_ok, code_permission_denied, ok_response, denied_response,
  StatusCode, bad_request, unauthorized, not_found, too_many_requests, err_body,
  get_denied_check_response, get_ok_check_response,
}
use path_external_auth_serve.Auth.Handler.{
  AuthHandler, check_portal_app_authorized, get_http_headers, check,
}
use path_external_auth_serve.Auth.Handler.View.{
  NamesApp, NamesNone, Finds, IsWithinLimit, invalid, unknown, refused, crashed, limited, granted,
}
use path_external_auth_serve.Auth.Handler.Cases.{check_view, granted_run}

-- The response lets the request through, and hands on the app's ID and that of its account.
abbrev pub Forwards : CheckResponse → PortalApp → Type 0
Forwards response app =
    (response.code ≡ 0)
    × (response.http_response
        ≡ ok_response (
            record { key = bytes "Portal-Application-ID"; value = app.id }
            ∷ record { key = bytes "Portal-Account-ID"; value = app.account_id }
            ∷ []))

pub granted-Forwards :
    (app : PortalApp) → Forwards (get_ok_check_response (get_http_headers app)) app
unfolding get_ok_check_response get_http_headers
granted-Forwards app = (refl, refl)

module _ (h : AuthHandler) where
  -- All that a request must satisfy to be let through with this app.
  pub record IsAdmitted (req : CheckRequest) (app : PortalApp) : Type 0 where
    pub headers : Header
    pub id : PortalAppId
    pub finds : Finds h req headers id app
    pub authorized : check_portal_app_authorized h headers app ≡ returns none
    pub within : IsWithinLimit h app

  -- Why a request is denied with a status.
  abbrev pub DeniedBecause : CheckRequest → StatusCode → Type 0
  DeniedBecause req bad_request = (e : GoString) × (m : GoString) × NamesNone req e m
  DeniedBecause req not_found =
      (headers : Header) × (id : PortalAppId) × NamesApp req headers id
      × (h.portal_app_store.get_portal_app id ≡ none)
  DeniedBecause req unauthorized =
      (headers : Header) × (id : PortalAppId) × (app : PortalApp) × (m : GoString) × Finds h req
        headers id app
      × (check_portal_app_authorized h headers app ≡ returns (some m))
  DeniedBecause req too_many_requests =
      (headers : Header) × (id : PortalAppId) × (app : PortalApp) × (limit : RateLimit) × Finds h
        req headers id app
      × (check_portal_app_authorized h headers app ≡ returns none)
      × (app.rate_limit ≡ some limit)
      × (h.rate_limit_store.is_account_rate_limited app.account_id ≡ true)

  module _ {F : Type 0} (elapsed : F) (req : CheckRequest) (response : CheckResponse)
      (ops : List (MetricOp F)) where
    not_denied :
        (m : GoString) (c : StatusCode) {others : List (MetricOp F)}
        → check h elapsed req ≡ returns (get_denied_check_response m c, others)
        → check h elapsed req ≡ returns (response, ops)
        → ¬ (response.code ≡ code_ok)
    unfolding get_denied_check_response
    not_denied m c e run is_ok = ground (arith, e, run, is_ok)

    granted_response :
        {granted : CheckResponse} {others : List (MetricOp F)}
        → check h elapsed req ≡ returns (response, ops)
        → check h elapsed req ≡ returns (granted, others)
        → granted ≡ response
    granted_response run e = cc (run, e)

    -- A response with the code of success is given to a request that names an app of the store,
    -- passes the authorization and is within the rate limit, and it sets two headers for the
    -- request: Portal-Application-ID with that app's ID, and Portal-Account-ID with its account.
    pub check_ok_sound :
        check h elapsed req ≡ returns (response, ops)
        → response.code ≡ code_ok
        → (app : PortalApp) × IsAdmitted req app × Forwards response app
    unfolding get_denied_check_response
    check_ok_sound run is_ok = elim (check_view h elapsed req) [
      | granted headers id app finds authorized within e ↦ (
        app,
        record {
          headers = headers;
          id = id;
          finds = finds;
          authorized = authorized;
          within = within;
        },
        subst (λ r. Forwards r app) (granted_response run e) (granted-Forwards app),
      )
      | crashed headers id app m finds a e ↦ cc (run, e)
      | invalid t m n e ↦ absurd (not_denied _ _ e run is_ok)
      | unknown headers id names missing e ↦ absurd (not_denied _ _ e run is_ok)
      | refused headers id app m finds a e ↦ absurd (not_denied _ _ e run is_ok)
      | limited headers id app limit finds a set over e ↦ absurd (not_denied _ _ e run is_ok)
    ]

    denied_facts :
        (m : GoString) (c : StatusCode) {others : List (MetricOp F)} {status : StatusCode}
        {body : GoString}
        → DeniedBecause req c
        → check h elapsed req ≡ returns (get_denied_check_response m c, others)
        → check h elapsed req ≡ returns (response, ops)
        → response.http_response ≡ denied_response status body
        → DeniedBecause req status
          × (response.code ≡ code_permission_denied)
          × (body ≡ err_body status response.message)
    unfolding get_denied_check_response
    denied_facts m c {status} reason e run is_denied =
        let same : c ≡ status = ground (arith, e, run, is_denied) in
        (
          subst (DeniedBecause req) same reason,
          ground (arith, e, run),
          ground (arith, e, run, is_denied),
        )

    -- A denial has the status of its reason, the code PermissionDenied, and a body that spells the
    -- status and the message.
    pub check_denied_sound :
        {status : StatusCode} {body : GoString}
        → check h elapsed req ≡ returns (response, ops)
        → response.http_response ≡ denied_response status body
        → DeniedBecause req status
          × (response.code ≡ code_permission_denied)
          × (body ≡ err_body status response.message)
    unfolding get_denied_check_response get_ok_check_response
    check_denied_sound {status} {body} run is_denied = elim (check_view h elapsed req) [
      | granted headers id app finds authorized within e ↦ absurd (ground (arith, run, e))
      | crashed headers id app m finds a e ↦ cc (run, e)
      | invalid t m n e ↦ denied_facts m bad_request (t, m, n) e run is_denied
      | unknown headers id names missing e ↦
          denied_facts _ not_found (headers, id, names, missing) e run is_denied
      | refused headers id app m finds a e ↦
          denied_facts m unauthorized (headers, id, app, m, finds, a) e run is_denied
      | limited headers id app limit finds a set over e ↦
          denied_facts _ too_many_requests (headers, id, app, limit, finds, a, set, over) e run
            is_denied
    ]

  module _ {F : Type 0} (elapsed : F) (req : CheckRequest) where
    pub admitted_run :
        (app : PortalApp)
        → IsAdmitted req app
        → (ops : List (MetricOp F)) × (check h elapsed req
            ≡ returns (get_ok_check_response (get_http_headers app), ops))
    admitted_run app a =
        (_, granted_run h elapsed req a.headers a.id app a.finds a.authorized a.within)
