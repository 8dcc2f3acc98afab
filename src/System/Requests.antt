-- ===== src/System/Requests.antt =====
-- Requests while the stores are refreshed: Check of auth/auth_handler.go with the stores of main.go.
use path_external_auth_serve.Base.{GoString, ℤ, GoMap, returns, some, List, ◌≡◌}
use path_external_auth_serve.PortalApp.{PortalAppId, AccountId, PortalApp}
use path_external_auth_serve.Metrics.{Floats, MetricOp}
use path_external_auth_serve.Store.{get_portal_app}
use path_external_auth_serve.Http.{Header}
use path_external_auth_serve.Auth.Messages.{
  CheckRequest, CheckResponse, denied_response, too_many_requests,
}
use path_external_auth_serve.Auth.Handler.{check}
use path_external_auth_serve.Auth.Handler.View.{NamesApp}
use path_external_auth_serve.Auth.Handler.Outcome.{check_denied_sound}
use path_external_auth_serve.System.{System, boot, handler_at, Reaches, stay, then_step}
use path_external_auth_serve.System.Limited.{IsOverLimit, limited_accounts_sound}

module _ (floats : Floats) (reported : AccountId → ℤ → Type 0) where
  pub steps_then :
      {s t u : System}
      → Reaches floats reported s t
      → Reaches floats reported t u
      → Reaches floats reported s u
  steps_then path (stay _) = path
  steps_then path (then_step later last) = then_step (steps_then path later) last

  -- A request that is denied with 429, while the stores are refreshed in any way, names an app of
  -- the store as it was when the app was read, and that app's account has, in the store as it was
  -- when the limit was read, an app whose documented limit is exceeded by a usage that the
  -- warehouse reported for the account.
  pub too_many_requests_sound :
      {s t : System} {F : Type 0} (apps : GoMap PortalApp) (elapsed : F) (req : CheckRequest)
      (response : CheckResponse) (ops : List (MetricOp F)) {body : GoString}
      → Reaches floats reported (boot apps) s
      → Reaches floats reported s t
      → check (handler_at s t) elapsed req ≡ returns (response, ops)
      → response.http_response ≡ denied_response too_many_requests body
      → (headers : Header) × (id : PortalAppId) × (app : PortalApp) × NamesApp req headers id
        × (get_portal_app s.store id ≡ some app)
        × IsOverLimit reported t app.account_id
  too_many_requests_sound {s} {t} apps elapsed req response ops before during run denied =
      let (headers, id, app, limit, finds, _, _, over) =
        (check_denied_sound (handler_at s t) elapsed req response ops run denied).0 in
      (
        headers,
        id,
        app,
        finds.names,
        finds.found,
        limited_accounts_sound reported floats apps app.account_id (steps_then before during) over,
      )
