-- ===== src/Auth/Handler/Answers.antt =====
-- What the handler of main.go answers to the requests that Check of auth/auth_handler.go lets through
-- or denies, field by field.
use path_external_auth_serve.Base.{
  GoString, bytes, returns, none, some, List, [], ◌≡◌, ◌≢◌, refl, ℕ, ◌++◌, format_nat, true,
}
use path_external_auth_serve.PortalApp.{PortalAppId, PortalApp, Auth, RateLimit}
use path_external_auth_serve.Metrics.{MetricOp}
use path_external_auth_serve.Http.{Header, get}
use path_external_auth_serve.Auth.Messages.{
  CheckRequest, CheckResponse, StatusCode, bad_request, unauthorized, not_found, too_many_requests,
  denied_response, get_denied_check_response, err_body,
}
use path_external_auth_serve.Auth.Names.{account_rate_limit_message}
use path_external_auth_serve.Auth.Authorizer.Keys.{Presents}
use path_external_auth_serve.Auth.Handler.{PortalAppStore, RateLimitStore, check}
use path_external_auth_serve.Auth.Handler.View.{NamesApp, NamesNone, Finds, IsWithinLimit}
use path_external_auth_serve.Auth.Handler.Cases.{
  unknown_run, refused_run, limited_run, invalid_run, granted_run,
}
use path_external_auth_serve.Auth.Handler.Outcome.{Forwards, granted-Forwards}
use path_external_auth_serve.Auth.Handler.ApiKey.{handler, authorized_iff, refused_of_missing}

-- The key of the app is presented, if it has one.
abbrev pub HasAppKey : Header → PortalApp → Type 0
HasAppKey headers app =
    (auth : Auth)
    → app.auth ≡ some auth
    → auth.api_key ≢ []
    → Presents (get headers (bytes "Authorization")) auth.api_key

-- The number of a status in RFC 9110 and RFC 6585.
abbrev pub status_number : StatusCode → ℕ
status_number bad_request = 400
status_number unauthorized = 401
status_number not_found = 404
status_number too_many_requests = 429

-- The response denies the request: its code is PERMISSION_DENIED of google.rpc.Code.
pub record Denies (response : CheckResponse) (status : StatusCode) (message : GoString)
    : Type 0 where
  pub code : response.code ≡ 7
  pub message_is : response.message ≡ message
  pub http_is :
      response.http_response
      ≡ denied_response status (
          bytes "{\"code\": "
          ++ (format_nat (status_number status)
              ++ (bytes ", \"message\": \"" ++ (message ++ bytes "\"}"))))

denied-Denies :
    (message : GoString) (status : StatusCode)
    → Denies (get_denied_check_response message status) status message
unfolding get_denied_check_response err_body
denied-Denies message bad_request = record { code = refl; message_is = refl; http_is = refl }
denied-Denies message unauthorized = record { code = refl; message_is = refl; http_is = refl }
denied-Denies message not_found = record { code = refl; message_is = refl; http_is = refl }
denied-Denies message too_many_requests = record { code = refl; message_is = refl; http_is = refl }

module _ (apps : PortalAppStore) (limits : RateLimitStore) where
  -- The request names this app of the store, presents its key if it has one, and its account is
  -- not rate limited or it asks for no limit.
  pub record IsEntitled (req : CheckRequest) (app : PortalApp) : Type 0 where
    pub headers : Header
    pub id : PortalAppId
    pub finds : Finds (handler apps limits) req headers id app
    pub presented : HasAppKey headers app
    pub within : IsWithinLimit (handler apps limits) app

  -- Why a request is to be denied with a status and a message.
  abbrev pub MustDeny : CheckRequest → StatusCode → GoString → Type 0
  MustDeny req bad_request message = (error_type : GoString) × NamesNone req error_type message
  MustDeny req not_found message =
      (message ≡ bytes "portal app not found")
      × (headers : Header) × (id : PortalAppId) × NamesApp req headers id
      × (apps.get_portal_app id ≡ none)
  MustDeny req unauthorized message =
      (message ≡ bytes "unauthorized")
      × (headers : Header) × (id : PortalAppId) × (app : PortalApp) × (auth : Auth) × Finds
          (handler apps limits) req headers id app
      × (app.auth ≡ some auth)
      × (auth.api_key ≢ [])
      × (¬ Presents (get headers (bytes "Authorization")) auth.api_key)
  MustDeny req too_many_requests message =
      (message ≡ account_rate_limit_message)
      × (headers : Header) × (id : PortalAppId) × (app : PortalApp) × (limit : RateLimit) × Finds
          (handler apps limits) req headers id app
      × HasAppKey headers app
      × (app.rate_limit ≡ some limit)
      × (limits.is_account_rate_limited app.account_id ≡ true)

  module _ {F : Type 0} (elapsed : F) (req : CheckRequest) where
    -- With the authorizer of `main`: a request that names an app of the store, presents the key of
    -- that app if it has one, and whose account is not rate limited or asks for no limit gets a
    -- response with the code of success, which sets the headers Portal-Application-ID and
    -- Portal-Account-ID to the IDs of the app and of its account.
    pub check_ok_complete :
        (app : PortalApp)
        → IsEntitled req app
        → (response : CheckResponse) × (ops : List (MetricOp F)) × (check
              (handler apps limits)
              elapsed
              req
            ≡ returns (response, ops))
          × Forwards response app
    check_ok_complete app a = (
      _,
      _,
      granted_run (handler apps limits) elapsed req a.headers a.id app a.finds
          ((authorized_iff apps limits a.headers app).1 a.presented) a.within,
      granted-Forwards app,
    )

    -- With the authorizer of `main`: a request that names no app is denied with 400, one whose app
    -- is not in the store with 404, one that does not present the key that its app has with 401, and
    -- any other whose account is rate limited, where its app asks for a limit, with 429. The response
    -- has the code PERMISSION_DENIED, the message of the reason, and a body of the status and the
    -- message.
    pub check_denied_complete :
        (status : StatusCode) (message : GoString)
        → MustDeny req status message
        → (response : CheckResponse) × (ops : List (MetricOp F)) × (check
              (handler apps limits)
              elapsed
              req
            ≡ returns (response, ops))
          × Denies response status message
    check_denied_complete bad_request message (e, n) = (
      _,
      _,
      invalid_run (handler apps limits) elapsed req e message n,
      denied-Denies _ bad_request,
    )
    check_denied_complete not_found message (is, headers, id, names, missing) = (
      _,
      _,
      unknown_run (handler apps limits) elapsed req headers id names missing,
      rw is (denied-Denies _ not_found),
    )
    check_denied_complete unauthorized message
          (is, headers, id, app, auth, finds, set, key, missing) =
        (
          _,
          _,
          refused_run (handler apps limits) elapsed req headers id app _ finds
              (refused_of_missing apps limits headers app auth set key missing),
          rw is (denied-Denies _ unauthorized),
        )
    check_denied_complete too_many_requests message
          (is, headers, id, app, limit, finds, presented, set, over) =
        (
          _,
          _,
          limited_run (handler apps limits) elapsed req headers id app limit finds
              ((authorized_iff apps limits headers app).1 presented) set over,
          rw is (denied-Denies _ too_many_requests),
        )
