-- ===== src/Main/Decisions/Admission.antt =====
-- Which requests are let through, told from the rows of Postgres and the usages of the warehouse:
-- Check of auth/auth_handler.go with the stores and the authorizer of main.go.
use path_external_auth_serve.Base.{
  ℤ, GoMap, lookup, HasDistinctKeys, returns, refl, none, some, List, ◌≡◌, ◌↔◌, sym, ap, ◌∙◌,
  string_Eq, Bool-cases, Option-cases, inl, inr,
}
use path_external_auth_serve.PortalApp.{PortalAppId, PortalApp}
use path_external_auth_serve.Metrics.{Floats, MetricOp}
use path_external_auth_serve.Http.{Header}
use path_external_auth_serve.Grove.{
  SelectPortalAppsRow, text_or_zero, app_of_row, convert_to_portal_app,
  sqlc_portal_apps_to_portal_app_row, sqlc_portal_apps_to_portal_apps,
}
use path_external_auth_serve.Store.{get_portal_app, set_store_data}
use path_external_auth_serve.RateLimit.{is_account_rate_limited}
use path_external_auth_serve.Auth.Messages.{CheckRequest, CheckResponse, code_ok}
use path_external_auth_serve.Auth.Handler.{AuthHandler, check}
use path_external_auth_serve.Auth.Handler.View.{NamesApp, IsWithinLimit, unconfigured, allowed}
use path_external_auth_serve.Main.Decisions.OpenRows.{serving_handler, check_ok_iff-HasOpenRow}
use path_external_auth_serve.Main.Decisions.Plans.{
  stored, limited_by, Accounts, AreJoined, IsOver, limited_iff-IsOver, stored_limit,
}
use path_external_auth_serve.Main.Decisions.RowApps.{
  last_with, HasKeyPresented, app_of, lookup-last_with, get_rate_limit_unconfigured,
}

module _ (floats : Floats) (accounts : Accounts) (rows : List SelectPortalAppsRow)
    (usages : GoMap ℤ) where
  abbrev pub handler_of_main : AuthHandler
  handler_of_main = serving_handler (stored rows) (limited_by floats rows usages)

  -- The last row with the ID that the request names: its key is presented if it is required, and its
  -- account is not over its limit.
  abbrev pub HasRow : PortalAppId → Header → Type 0
  HasRow id headers =
      (row : SelectPortalAppsRow) × (last_with id rows none ≡ some row)
      × HasKeyPresented row headers
      × (¬ IsOver accounts usages (text_or_zero row.account_id))

  IsWithinLimit-iff :
      (id : PortalAppId) (app : PortalApp)
      → AreJoined accounts rows
      → HasDistinctKeys usages
      → lookup id (sqlc_portal_apps_to_portal_apps rows) ≡ some app
      → IsWithinLimit handler_of_main app ↔ (¬ IsOver accounts usages app.account_id)
  IsWithinLimit-iff id app joined distinct found =
      let limited = limited_iff-IsOver floats accounts rows id app usages joined distinct found in
      (
        λ within over. elim within [
          | unconfigured no_limit ↦ over.2 (
              sym (stored_limit floats accounts rows id app joined found)
              ∙ get_rate_limit_unconfigured app no_limit)
          | allowed limit set free ↦ cc (limited.1 over, free)
        ],
        λ not_over. elim (Option-cases app.rate_limit) [
          | inl no_limit ↦ unconfigured no_limit
          | inr (limit, set) ↦
              elim (Bool-cases
                (is_account_rate_limited (limited_by floats rows usages) app.account_id)) [
                  | inl over ↦ absurd (not_over (limited.0 over))
                  | inr free ↦ allowed limit set free
                ]
        ],
      )

  -- In front of the stores that `main` makes from rows whose plans and limits come from a table of
  -- accounts, and from usages that are a Go map: a request that names a portal app is let through
  -- exactly when the last row with that ID exists, the request presents that row's key if it is
  -- required and not empty, and the row's account has no usage above the limit of its plan.
  pub check_ok_iff-HasRow :
      AreJoined accounts rows
      → HasDistinctKeys usages
      → (req : CheckRequest) (headers : Header) (id : PortalAppId) → NamesApp req headers id
      → {F : Type 0} (elapsed : F) (response : CheckResponse) (ops : List (MetricOp F))
      → check handler_of_main elapsed req ≡ returns (response, ops)
      → (response.code ≡ code_ok) ↔ HasRow id headers
  unfolding get_portal_app set_store_data convert_to_portal_app sqlc_portal_apps_to_portal_app_row
  check_ok_iff-HasRow joined distinct req headers id names elapsed response ops run =
      let open_row =
        check_ok_iff-HasOpenRow (stored rows) (limited_by floats rows usages) rows id refl req
          headers names elapsed response ops run in
      let within = λ (row : SelectPortalAppsRow) (last : last_with id rows none ≡ some row).
        IsWithinLimit-iff id (app_of_row row) joined distinct
          (lookup-last_with id rows ∙ ap app_of last) in
      (
        λ is_ok.
            let (row, last, presented, kept) = open_row.0 is_ok in
            (row, last, presented, (within row last).0 kept),
        λ (row, last, presented, not_over).
            open_row.1 (row, last, presented, (within row last).1 not_over),
      )
