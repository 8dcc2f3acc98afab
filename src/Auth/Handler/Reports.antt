-- ===== src/Auth/Handler/Reports.antt =====
-- The metrics that a Check call of auth/auth_handler.go reports.
use path_external_auth_serve.Base.{
  GoString, bytes, lookup, returns, Option, some, List, [], ◌∷◌, ◌++◌, ◌≡◌, inl, inr, refl, arith,
  ◌==◌, string_Eq, string_eq, if◌then◌else◌, Bool-cases, Option-cases,
}
use path_external_auth_serve.PortalApp.{PortalApp}
use path_external_auth_serve.Metrics.{
  MetricOp, inc, record_auth_request, record_rate_limit_check, auth_decision_authorized,
  auth_decision_denied, error_portal_app_not_found, error_unauthorized, error_rate_limited,
}
use path_external_auth_serve.Auth.Messages.{
  CheckRequest, CheckResponse, HttpResponse, ok_response, denied_response,
  get_denied_check_response, get_ok_check_response,
}
use path_external_auth_serve.Auth.Handler.{AuthHandler, check_account_rate_limited, check}
use path_external_auth_serve.Auth.Handler.View.{
  invalid, unknown, refused, crashed, limited, granted,
}
use path_external_auth_serve.Auth.Handler.Cases.{check_view}

-- The decision that a response carries out.
abbrev pub decision_of : HttpResponse → GoString
decision_of (ok_response _) = auth_decision_authorized
decision_of (denied_response _ _) = auth_decision_denied

module _ {F : Type 0} where
  -- The `status` labels of the increments of one counter, in order.
  abbrev pub label_values : GoString → GoString → List (MetricOp F) → List (Option GoString)
  label_values name label [] = []
  label_values name label (inc v labels ∷ ops) =
      let rest = label_values name label ops in
      if v.name == name then lookup label labels ∷ rest else rest
  label_values name label (_ ∷ ops) = label_values name label ops

  abbrev pub auth_statuses : List (MetricOp F) → List (Option GoString)
  auth_statuses = label_values (bytes "auth_requests_total") (bytes "status")

  auth_statuses-record :
      (id account status error : GoString) (d : F)
      → auth_statuses (record_auth_request id account status error d) ≡ some status ∷ []
  unfolding record_auth_request bytes string_eq lookup
  auth_statuses-record id account status error d = refl

  auth_statuses-check_account :
      (h : AuthHandler) (app : PortalApp) (id account status error : GoString) (d : F)
      → auth_statuses
          ((check_account_rate_limited h app).1 ++ record_auth_request id account status error d)
        ≡ some status ∷ []
  unfolding record_auth_request record_rate_limit_check check_account_rate_limited bytes string_eq
      lookup
  auth_statuses-check_account h app id account status error d = elim (Option-cases app.rate_limit) [
    | inl e ↦ rw e
    | inr (limit, e) ↦
        rw e (elim (Bool-cases (h.rate_limit_store.is_account_rate_limited app.account_id)) [
          | inl over ↦ rw over
          | inr free ↦ rw free
        ])
  ]

  -- Every Check call that returns counts the request once in auth_requests_total, under the
  -- decision that its response carries out.
  pub check_counts_once :
      (h : AuthHandler) (elapsed : F) (req : CheckRequest) (response : CheckResponse)
      (ops : List (MetricOp F))
      → check h elapsed req ≡ returns (response, ops)
      → auth_statuses ops ≡ some (decision_of response.http_response) ∷ []
  unfolding get_denied_check_response get_ok_check_response
  check_counts_once h elapsed req response ops run = elim (check_view h elapsed req) [
    | invalid t m n e ↦
        ground (arith, run, e, auth_statuses-record [] [] auth_decision_denied t elapsed)
    | unknown headers id names missing e ↦ ground (
      arith,
      run,
      e,
      auth_statuses-record id [] auth_decision_denied error_portal_app_not_found elapsed,
    )
    | refused headers id app m finds a e ↦ ground (
      arith,
      run,
      e,
      auth_statuses-record id app.account_id auth_decision_denied error_unauthorized elapsed,
    )
    | crashed headers id app m finds a e ↦ cc (run, e)
    | limited headers id app limit finds a capped over e ↦ ground (
      arith,
      run,
      e,
      auth_statuses-check_account h app id app.account_id auth_decision_denied error_rate_limited
          elapsed,
    )
    | granted headers id app finds a within e ↦ ground (
      arith,
      run,
      e,
      auth_statuses-check_account h app id app.account_id auth_decision_authorized [] elapsed,
    )
  ]
