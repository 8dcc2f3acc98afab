-- ===== src/Main/Decisions/OpenRows.antt =====
-- Which requests are let through where the portal apps of the store come from rows of Postgres:
-- Check of auth/auth_handler.go with the authorizer of main.go, at any time after a refresh.
use path_external_auth_serve.Base.{lookup, returns, none, some, List, ◌≡◌, ◌↔◌, sym, ap, ◌∙◌, subst}
use path_external_auth_serve.PortalApp.{PortalAppId, PortalApp}
use path_external_auth_serve.Metrics.{MetricOp}
use path_external_auth_serve.Http.{Header}
use path_external_auth_serve.Grove.{
  SelectPortalAppsRow, app_of_row, sqlc_portal_apps_to_portal_apps,
}
use path_external_auth_serve.Store.{Store, get_portal_app}
use path_external_auth_serve.RateLimit.{RateLimitedAccounts, is_account_rate_limited}
use path_external_auth_serve.Auth.Messages.{
  CheckRequest, CheckResponse, code_ok, get_ok_check_response,
}
use path_external_auth_serve.Auth.Handler.{
  AuthHandler, check_portal_app_authorized, get_http_headers, check,
}
use path_external_auth_serve.Auth.Handler.ApiKey.{handler, authorized_iff}
use path_external_auth_serve.Auth.Handler.View.{NamesApp, IsWithinLimit}
use path_external_auth_serve.Auth.Handler.Outcome.{IsAdmitted, check_ok_sound, admitted_run}
use path_external_auth_serve.Main.Decisions.RowApps.{
  last_with, HasKeyPresented, app_of, lookup-last_with, app_of-some, names_unique,
  row_key-authorized,
}

-- The handler of `main` for its two stores.
abbrev pub serving_handler : Store → RateLimitedAccounts → AuthHandler
serving_handler store limited =
    handler (record { get_portal_app = get_portal_app store })
      (record { is_account_rate_limited = is_account_rate_limited limited })

module _ (store : Store) (limited : RateLimitedAccounts) (rows : List SelectPortalAppsRow) where
  -- The last row with the ID: its key is presented if it is required, and its app is within its
  -- limit.
  abbrev pub HasOpenRow : PortalAppId → Header → Type 0
  HasOpenRow id headers =
      (row : SelectPortalAppsRow) × (last_with id rows none ≡ some row)
      × HasKeyPresented row headers
      × IsWithinLimit (serving_handler store limited) (app_of_row row)

  module _ (id : PortalAppId)
      (served : get_portal_app store id ≡ lookup id (sqlc_portal_apps_to_portal_apps rows))
      (req : CheckRequest) (headers : Header) (names : NamesApp req headers id) where
    authorized_row :
        (app : PortalApp) (row : SelectPortalAppsRow) (headers' : Header)
        → headers' ≡ headers
        → app ≡ app_of_row row
        → check_portal_app_authorized (serving_handler store limited) headers' app ≡ returns none
        → HasKeyPresented row headers
    authorized_row app row headers' same_headers app_is authorized =
        (row_key-authorized row headers).0 (
          (authorized_iff _ _ headers (app_of_row row)).0 (
            subst
              (λ a.
                check_portal_app_authorized (serving_handler store limited) headers a
                ≡ returns none)
              app_is
              (subst
                (λ k.
                  check_portal_app_authorized (serving_handler store limited) k app ≡ returns none)
                same_headers authorized)))

    IsAdmitted-HasOpenRow :
        ((app : PortalApp) × IsAdmitted (serving_handler store limited) req app)
        ↔ HasOpenRow id headers
    IsAdmitted-HasOpenRow = (
      λ (app, admitted).
          let (same_headers, same_id) =
            names_unique req admitted.headers headers admitted.id id admitted.finds.names names in
          let found : get_portal_app store id ≡ some app = rw same_id at admitted.finds.found in
          let (row, last, app_is) =
            app_of-some (last_with id rows none) app
              (sym (served ∙ lookup-last_with id rows) ∙ found) in
          (
            row,
            last,
            authorized_row app row admitted.headers same_headers app_is admitted.authorized,
            subst (IsWithinLimit (serving_handler store limited)) app_is admitted.within,
          ),
      λ (row, last, presented, within). (
        app_of_row row,
        record {
          headers = headers;
          id = id;
          finds = record {
            names = names;
            found = served ∙ lookup-last_with id rows ∙ ap app_of last;
          };
          authorized =
              (authorized_iff _ _ headers (app_of_row row)).1
                ((row_key-authorized row headers).1 presented);
          within = within;
        },
      ),
    )

    -- A request is let through exactly when it has an open row.
    pub check_ok_iff-HasOpenRow :
        {F : Type 0} (elapsed : F) (response : CheckResponse) (ops : List (MetricOp F))
        → check (serving_handler store limited) elapsed req ≡ returns (response, ops)
        → (response.code ≡ code_ok) ↔ HasOpenRow id headers
    unfolding get_ok_check_response
    check_ok_iff-HasOpenRow elapsed response ops run = (
      λ is_ok.
          let (app, admitted, _) =
            check_ok_sound (serving_handler store limited) elapsed req response ops run is_ok in
          IsAdmitted-HasOpenRow.0 (app, admitted),
      λ has.
          let (app, admitted) = IsAdmitted-HasOpenRow.1 has in
          let (others, granted) =
            admitted_run (serving_handler store limited) elapsed req app admitted in
          let same : response ≡ get_ok_check_response (get_http_headers app) = cc (run, granted) in
          ap (λ r. r.code) same,
    )
