-- ===== src/Main/Decisions/Served.antt =====
-- The decisions of the server that main.go starts, from what the outside world answers.
use path_external_auth_serve.Base.{
  ℤ, GoMap, Result, ok, returns, List, [], ◌≡◌, ◌↔◌, refl, sym, ap, ◌∙◌, subst,
}
use path_external_auth_serve.PortalApp.{PortalAppId}
use path_external_auth_serve.Metrics.{Floats, MetricOp}
use path_external_auth_serve.Http.{Header}
use path_external_auth_serve.Grove.{
  SelectPortalAppsRow, Cursor, select_portal_apps, get_portal_apps, sqlc_portal_apps_to_portal_apps,
}
use path_external_auth_serve.Dwh.{Driver, get_month_to_moment_usage}
use path_external_auth_serve.Dwh.Usage.{get_month_to_moment_usage_sound}
use path_external_auth_serve.Store.{Store, empty_store, get_account_portal_app, set_store_data}
use path_external_auth_serve.RateLimit.{
  RateLimitedAccounts, update_rate_limited_accounts_map, free_monthly_relays,
}
use path_external_auth_serve.Auth.Messages.{CheckRequest, CheckResponse, code_ok}
use path_external_auth_serve.Auth.Handler.{check}
use path_external_auth_serve.Auth.Handler.View.{NamesApp}
use path_external_auth_serve.Main.{World}
use path_external_auth_serve.Main.Stages.{ok_injective}
use path_external_auth_serve.Main.Ready.{IsReady}
use path_external_auth_serve.Main.Decisions.Plans.{Accounts, AreJoined, stored, limited_by}
use path_external_auth_serve.Main.Decisions.OpenRows.{serving_handler}
use path_external_auth_serve.Main.Decisions.Admission.{HasRow, check_ok_iff-HasRow}

pub get_portal_apps_ok :
    (answer : Result Cursor) (rows : List SelectPortalAppsRow)
    → select_portal_apps answer ≡ ok rows
    → get_portal_apps answer ≡ ok (sqlc_portal_apps_to_portal_apps rows)
unfolding get_portal_apps
get_portal_apps_ok answer rows h = rw h refl

module _ (floats : Floats) {Config Pool : Type 0} (w : World Config Pool) {store : Store}
    {limited : RateLimitedAccounts} (ready : IsReady floats w store limited) where
  -- The driver of the warehouse that `main` has made.
  abbrev pub driver_of_main : Driver
  driver_of_main = record { client_bq = ready.big_query; project_id = ready.env.gcp_project_id }

module _ (floats : Floats) {Config Pool : Type 0} (w : World Config Pool) {store : Store}
    {limited : RateLimitedAccounts} (ready : IsReady floats w store limited)
    (rows : List SelectPortalAppsRow) (usages : GoMap ℤ) where
  store-stored : select_portal_apps (w.query ready.pool) ≡ ok rows → store ≡ stored rows
  unfolding set_store_data
  store-stored scanned =
      let fetched : ready.portal_apps ≡ sqlc_portal_apps_to_portal_apps rows =
        ok_injective (sym ready.fetched ∙ get_portal_apps_ok (w.query ready.pool) rows scanned) in
      ready.loaded ∙ ap (λ apps. (set_store_data (ok apps) empty_store).0) fetched

  limited-limited_by :
      select_portal_apps (w.query ready.pool) ≡ ok rows
      → get_month_to_moment_usage (driver_of_main floats w ready) free_monthly_relays ≡ ok usages
      → limited ≡ limited_by floats rows usages
  limited-limited_by scanned answered =
      ready.limits
      ∙ ap
          (λ usage.
            (update_rate_limited_accounts_map floats (get_account_portal_app store) usage []).0)
          answered
      ∙ ap
          (λ s.
            (update_rate_limited_accounts_map floats (get_account_portal_app s) (ok usages) []).0)
          (store-stored scanned)

  -- In the server that `main` starts, where Postgres gave rows whose plans and limits come from a
  -- table of accounts and the warehouse gave its usages: a request that names a portal app is let
  -- through exactly when there is a row with that ID, the request presents the key of the last such
  -- row if it is required and not empty, and the row's account has no usage above the limit of its
  -- plan.
  pub main_lets_through_iff :
      (accounts : Accounts) (req : CheckRequest) (headers : Header) (id : PortalAppId) {F : Type 0}
      (elapsed : F) (response : CheckResponse) (ops : List (MetricOp F))
      → select_portal_apps (w.query ready.pool) ≡ ok rows
      → get_month_to_moment_usage (driver_of_main floats w ready) free_monthly_relays ≡ ok usages
      → AreJoined accounts rows
      → NamesApp req headers id
      → check (serving_handler store limited) elapsed req ≡ returns (response, ops)
      → (response.code ≡ code_ok) ↔ HasRow floats accounts rows usages id headers
  main_lets_through_iff accounts req headers id elapsed response ops scanned answered joined names
        run =
      let (_, _, distinct, _) =
        get_month_to_moment_usage_sound (driver_of_main floats w ready) free_monthly_relays usages
          answered in
      check_ok_iff-HasRow floats accounts rows usages joined distinct req headers id names elapsed
        response ops
        (subst (λ l. check (serving_handler (stored rows) l) elapsed req ≡ returns (response, ops))
          (limited-limited_by scanned answered)
          (subst (λ s. check (serving_handler s limited) elapsed req ≡ returns (response, ops))
            (store-stored scanned) run))
