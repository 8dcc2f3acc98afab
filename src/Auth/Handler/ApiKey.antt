-- ===== src/Auth/Handler/ApiKey.antt =====
-- The handler that main.go builds, whose authorizer compares API keys.
use path_external_auth_serve.Base.{
  GoString, returns, Option, none, some, List, [], ◌≡◌, ◌≢◌, ◌↔◌, ◌⊎◌, inl, inr, sym, ◌∙◌, arith,
  ◌==◌, string_Eq, string_eq_iff, Bool-cases, Option-cases,
}
use path_external_auth_serve.PortalApp.{PortalApp, Auth}
use path_external_auth_serve.Metrics.{MetricOp}
use path_external_auth_serve.Http.{Header, get}
use path_external_auth_serve.Auth.Names.{auth_header_key, err_unauthorized}
use path_external_auth_serve.Auth.Messages.{CheckRequest, CheckResponse, code_ok}
use path_external_auth_serve.Auth.Authorizer.{authorizer_api_key, authorize_request}
use path_external_auth_serve.Auth.Authorizer.Keys.{Presents, authorize_request_iff}
use path_external_auth_serve.Auth.Handler.{
  AuthHandler, PortalAppStore, RateLimitStore, new_auth_handler, required_key,
  check_portal_app_authorized, check,
}
use path_external_auth_serve.Auth.Handler.View.{
  invalid, unknown, refused, crashed, limited, granted,
}
use path_external_auth_serve.Auth.Handler.Cases.{check_view}
use path_external_auth_serve.Auth.Handler.Outcome.{IsAdmitted, check_ok_sound}

module _ (apps : PortalAppStore) (limits : RateLimitStore) where
  -- The handler of `main`.
  abbrev pub handler : AuthHandler
  handler = new_auth_handler apps limits authorizer_api_key

  -- An app without a key is not checked; one with a key wants it presented, and the call answers.
  authorized_cases :
      (headers : Header) (app : PortalApp)
      → ((required_key handler app.auth ≡ [])
          × (check_portal_app_authorized handler headers app ≡ returns none))
        ⊎ ((auth : Auth) × (app.auth ≡ some auth)
            × (auth.api_key ≢ [])
            × (check_portal_app_authorized handler headers app ≡ authorize_request headers app))
  unfolding check_portal_app_authorized
  authorized_cases headers app = elim (Option-cases app.auth) [
    | inl none_set ↦ inl (ground (arith, none_set), ground (arith, none_set, string_eq_iff [] []))
    | inr (auth, set) ↦ elim (Bool-cases (auth.api_key == [])) [
      | inl empty ↦
          let e = (string_eq_iff auth.api_key []).0 empty in
          inl (ground (arith, set, e), ground (arith, set, empty))
      | inr key ↦ inr (
        auth,
        set,
        (λ e. cc ((string_eq_iff auth.api_key []).1 e, key)),
        ground (arith, set, key),
      )
    ]
  ]

  -- The authorization always answers: the key of an absent Auth is never read.
  authorized_returns :
      (headers : Header) (app : PortalApp)
      → (outcome : Option GoString) × (check_portal_app_authorized handler headers app
          ≡ returns outcome)
  authorized_returns headers app = elim (authorized_cases headers app) [
    | inl (_, e) ↦ (none, e)
    | inr (auth, set, key, e) ↦ elim (authorize_request_iff headers app auth set key).1 [
      | inl yes_ ↦ (none, e ∙ yes_)
      | inr no_ ↦ (some err_unauthorized, e ∙ no_)
    ]
  ]

  -- It refuses with one message only.
  pub refused_message :
      (headers : Header) (app : PortalApp) (message : GoString)
      → check_portal_app_authorized handler headers app ≡ returns (some message)
      → message ≡ err_unauthorized
  refused_message headers app message h = elim (authorized_cases headers app) [
    | inl (_, e) ↦ cc (h, e)
    | inr (auth, set, key, e) ↦ elim (authorize_request_iff headers app auth set key).1 [
      | inl yes_ ↦ cc (h, e, yes_)
      | inr no_ ↦ cc (h, e, no_)
    ]
  ]

  -- The authorization accepts exactly the headers that present the key of an app that has one.
  pub authorized_iff :
      (headers : Header) (app : PortalApp)
      → (check_portal_app_authorized handler headers app ≡ returns none) ↔ (
          (auth : Auth)
          → app.auth ≡ some auth
          → auth.api_key ≢ []
          → Presents (get headers auth_header_key) auth.api_key)
  authorized_iff headers app = (
    λ accepted auth set key. elim (authorized_cases headers app) [
      | inl (no_key, _) ↦ absurd (key (ground (arith, no_key, set)))
      | inr (_, _, _, e) ↦ (authorize_request_iff headers app auth set key).0.0 (sym e ∙ accepted)
    ],
    λ presents. elim (authorized_cases headers app) [
      | inl (_, e) ↦ e
      | inr (auth, set, key, e) ↦
          e ∙ (authorize_request_iff headers app auth set key).0.1 (presents auth set key)
    ],
  )

  pub refused_of_missing :
      (headers : Header) (app : PortalApp) (auth : Auth)
      → app.auth ≡ some auth
      → auth.api_key ≢ []
      → ¬ Presents (get headers auth_header_key) auth.api_key
      → check_portal_app_authorized handler headers app ≡ returns (some err_unauthorized)
  refused_of_missing headers app auth set key missing = elim (authorized_cases headers app) [
    | inl (no_key, _) ↦ absurd (key (ground (arith, no_key, set)))
    | inr (_, _, _, e) ↦
        let answer = authorize_request_iff headers app auth set key in
        elim answer.1 [ inl accepted ↦ absurd (missing (answer.0.0 accepted)) | inr no_ ↦ e ∙ no_ ]
  ]

  module _ {F : Type 0} (elapsed : F) (req : CheckRequest) where
    -- With the authorizer of `main` every Check call returns a response; none panics.
    pub check_returns :
        (response : CheckResponse) × (ops : List (MetricOp F)) × (check handler elapsed req
          ≡ returns (response, ops))
    check_returns = elim (check_view handler elapsed req) [
      | invalid t m n e ↦ (_, _, e)
      | unknown headers id names missing e ↦ (_, _, e)
      | refused headers id app m finds a e ↦ (_, _, e)
      | crashed headers id app m finds a e ↦ cc ((authorized_returns headers app).1, a)
      | limited headers id app limit finds a set over e ↦ (_, _, e)
      | granted headers id app finds a within e ↦ (_, _, e)
    ]

    -- A request that is let through names an app of the store, and presents the API key of that app
    -- in its Authorization header if the app has one.
    pub check_ok-Presents :
        (response : CheckResponse) (ops : List (MetricOp F))
        → check handler elapsed req ≡ returns (response, ops)
        → response.code ≡ code_ok
        → (app : PortalApp) × (admitted : IsAdmitted handler req app) × ((auth : Auth)
            → app.auth ≡ some auth
            → auth.api_key ≢ []
            → Presents (get admitted.headers auth_header_key) auth.api_key)
    check_ok-Presents response ops run is_ok =
        let (app, admitted, _) = check_ok_sound handler elapsed req response ops run is_ok in
        (app, admitted, (authorized_iff admitted.headers app).0 admitted.authorized)
