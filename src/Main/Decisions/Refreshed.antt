-- ===== src/Main/Decisions/Refreshed.antt =====
-- The decision after the store was refreshed from the tables of the portal's database, whatever it
-- held before: store/portal_app_store.go behind the query of postgres/grove/sqlc.
use path_external_auth_serve.Base.{
  bytes, pos, ◌<ℤ◌, ◌≢◌, string_Eq, ◌==◌, string_eq_iff, Bool-cases, GoMap, lookup, Result, ok, err,
  returns, none, List, [], ◌∷◌, ◌++◌, false, not, Member, HaveSameMembers, Member-matching, All,
  ◌≡◌, ◌↔◌, ◌⊎◌, inl, inr, refl, ap, ◌∙◌, subst, arith, Option-cases,
}
use path_external_auth_serve.PortalApp.{PortalAppId, PortalApp}
use path_external_auth_serve.Metrics.{Floats, MetricOp}
use path_external_auth_serve.Http.{Header}
use path_external_auth_serve.Grove.{
  SelectPortalAppsRow, Cursor, text_or_zero, int_or_zero, get_rate_limit_details, plan_free,
  app_of_row, convert_to_portal_app, sqlc_portal_apps_to_portal_app_row, select_portal_apps,
  get_portal_apps, sqlc_portal_apps_to_portal_apps,
}
use path_external_auth_serve.Grove.Query.{
  PortalApplicationsRow, Database, KeepsSchema, select_portal_apps_query,
}
use path_external_auth_serve.Grove.Query.Joined.{row_of}
use path_external_auth_serve.Store.{Store, Fetched, get_portal_app, refresh_loop}
use path_external_auth_serve.Store.Refresh.{last_fetched, get_portal_app-refresh_loop}
use path_external_auth_serve.RateLimit.{RateLimitedAccounts, is_account_rate_limited}
use path_external_auth_serve.Auth.Messages.{CheckRequest, CheckResponse, code_ok}
use path_external_auth_serve.Auth.Handler.{check}
use path_external_auth_serve.Auth.Handler.View.{NamesApp, IsWithinLimit, unconfigured, allowed}
use path_external_auth_serve.Main.Decisions.RowApps.{HasKeyPresented}
use path_external_auth_serve.Main.Decisions.OpenRows.{serving_handler, check_ok_iff-HasOpenRow}
use path_external_auth_serve.Main.Decisions.Served.{get_portal_apps_ok}
use path_external_auth_serve.Main.Decisions.Tables.{last_row_iff}

abbrev pub HasFailed : Fetched → Type 0
HasFailed (ok apps) = ⊥
HasFailed (err message) = Unit

last_fetched_ok :
    (before failures : List Fetched) (fetched apps : GoMap PortalApp)
    → All HasFailed failures
    → last_fetched (before ++ ok fetched ∷ failures) apps ≡ fetched
last_fetched_ok [] [] fetched apps failed = refl
last_fetched_ok [] (ok _ ∷ failures) fetched apps (never, failed) = absurd never
last_fetched_ok [] (err _ ∷ failures) fetched apps (_, failed) =
    last_fetched_ok [] failures fetched apps failed
last_fetched_ok (ok other ∷ before) failures fetched apps failed =
    last_fetched_ok before failures fetched other failed
last_fetched_ok (err _ ∷ before) failures fetched apps failed =
    last_fetched_ok before failures fetched apps failed

-- The account of the row is not on the free plan, and has no limit of its own above zero.
abbrev pub HasNoLimit : SelectPortalAppsRow → Type 0
HasNoLimit row =
    (text_or_zero row.plan ≢ bytes "PLAN_FREE") × (¬ (pos 0 <ℤ int_or_zero row.monthly_user_limit))

no_limit_iff : (row : SelectPortalAppsRow) → ((app_of_row row).rate_limit ≡ none) ↔ HasNoLimit row
unfolding convert_to_portal_app sqlc_portal_apps_to_portal_app_row get_rate_limit_details
no_limit_iff row = (
  λ unset. (
    λ is_free. ground (arith, unset, (string_eq_iff (text_or_zero row.plan) plan_free).1 is_free),
    λ above. ground (arith, unset, above),
  ),
  λ (other, zero). elim (Bool-cases (text_or_zero row.plan == plan_free)) [
    | inl is_free ↦ absurd (other ((string_eq_iff _ _).0 is_free))
    | inr not_free ↦ ground (arith, not_free, zero)
  ],
)

-- The application in use with the ID: the key of its settings is presented if it is required, and
-- its account is not rate limited, or it is neither on the free plan nor has a limit above zero.
pub record HasOpenApplication (db : Database) (limited : RateLimitedAccounts) (id : PortalAppId)
    (headers : Header) : Type 0 where
  pub application : PortalApplicationsRow
  pub listed : Member application db.portal_applications
  pub in_use : application.deleted ≡ false
  pub named : application.id ≡ id
  pub key_presented : HasKeyPresented (row_of db application) headers
  pub within :
      HasNoLimit (row_of db application)
      ⊎ (is_account_rate_limited limited (text_or_zero application.account_id) ≡ false)

within_iff :
    (store : Store) (limited : RateLimitedAccounts) (row : SelectPortalAppsRow)
    → IsWithinLimit (serving_handler store limited) (app_of_row row)
      ↔ (HasNoLimit row ⊎ (is_account_rate_limited limited (text_or_zero row.account_id) ≡ false))
unfolding convert_to_portal_app sqlc_portal_apps_to_portal_app_row
within_iff store limited row = (
  λ within. elim within [
    | unconfigured no_limit ↦ inl ((no_limit_iff row).0 no_limit)
    | allowed limit set free ↦ inr free
  ],
  λ either. elim either [
    | inl no_limit ↦ unconfigured ((no_limit_iff row).1 no_limit)
    | inr free ↦ elim (Option-cases (app_of_row row).rate_limit) [
      | inl no_limit ↦ unconfigured no_limit
      | inr (limit, set) ↦ allowed limit set free
    ]
  ],
)

module _ (floats : Floats) (before failures : List Fetched) (answer : Result Cursor)
    (store : Store) where
  -- The store after any fetches, that of the answer, and fetches that failed.
  abbrev pub refreshed : Store
  refreshed = (refresh_loop floats (before ++ get_portal_apps answer ∷ failures) store).0

  refreshed-get_portal_app :
      (rows : List SelectPortalAppsRow) (id : PortalAppId)
      → select_portal_apps answer ≡ ok rows
      → All HasFailed failures
      → get_portal_app refreshed id ≡ lookup id (sqlc_portal_apps_to_portal_apps rows)
  refreshed-get_portal_app rows id scanned failed =
      get_portal_app-refresh_loop floats (before ++ get_portal_apps answer ∷ failures) store id
      ∙ ap (λ f. lookup id (last_fetched (before ++ f ∷ failures) store.portal_apps))
          (get_portal_apps_ok answer rows scanned)
      ∙ ap (lookup id) (last_fetched_ok before failures _ store.portal_apps failed)

  -- After any refreshes, one whose fetch gave the rows of the tables in any order, and any that
  -- failed, a request that names a portal app is let through exactly when the tables have an
  -- application with that ID that is not deleted, the request presents the key of its settings if
  -- that is required and not empty, and its account is not rate limited or is neither on the free
  -- plan nor has a limit above zero. What the store held before plays no part.
  pub refreshed_decides_by_tables :
      (db : Database) (rows : List SelectPortalAppsRow) (limited : RateLimitedAccounts)
      (req : CheckRequest) (headers : Header) (id : PortalAppId) {F : Type 0} (elapsed : F)
      (response : CheckResponse) (ops : List (MetricOp F))
      → KeepsSchema db
      → select_portal_apps answer ≡ ok rows
      → HaveSameMembers rows (select_portal_apps_query db)
      → All HasFailed failures
      → NamesApp req headers id
      → check (serving_handler refreshed limited) elapsed req ≡ returns (response, ops)
      → (response.code ≡ code_ok) ↔ HasOpenApplication db limited id headers
  refreshed_decides_by_tables db rows limited req headers id elapsed response ops keeps scanned same
        failed names run =
      let open_row =
        check_ok_iff-HasOpenRow refreshed limited rows id
          (refreshed-get_portal_app rows id scanned failed) req headers names elapsed response ops
          run in
      (
        λ is_ok.
            let (row, last, presented, within) = open_row.0 is_ok in
            let (app, used, is_id, e) = (last_row_iff db keeps rows same id row).0 last in
            let kept = (Member-matching (λ a. not a.deleted) app db.portal_applications).0 used in
            record {
              application = app;
              listed = kept.1;
              in_use = ground (arith, kept.0);
              named = is_id;
              key_presented = subst (λ r. HasKeyPresented r headers) e presented;
              within = (within_iff refreshed limited (row_of db app)).0 (
                  subst (λ r. IsWithinLimit (serving_handler refreshed limited) (app_of_row r)) e
                    within);
            },
        λ h.
            let app = h.application in
            let used =
              (Member-matching (λ a. not a.deleted) app db.portal_applications).1
                (ap not h.in_use, h.listed) in
            open_row.1 (
              row_of db app,
              (last_row_iff db keeps rows same id (row_of db app)).1 (app, used, h.named, refl),
              h.key_presented,
              (within_iff refreshed limited (row_of db app)).1 h.within,
            ),
      )
