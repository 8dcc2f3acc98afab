-- ===== src/Main/Decisions/Plans.antt =====
-- The limits of the accounts in the stores that main.go makes from the rows of Postgres, whose
-- query takes the plan and the custom limit of a row from the table of accounts.
use path_external_auth_serve.Base.{
  GoString, ℤ, pos, ◌<ℤ◌, int_Eq, int_eq_iff, GoMap, lookup, insert, HasDistinctKeys, All, ok, some,
  List, [], ◌∷◌, true, ◌≡◌, ◌≢◌, ◌↔◌, sym, ap, ◌∙◌, arith, ◌==◌, string_Eq, Bool-cases, inl, inr,
}
use path_external_auth_serve.PortalApp.{PortalAppId, AccountId, PlanType, PortalApp}
use path_external_auth_serve.Metrics.{Floats}
use path_external_auth_serve.Grove.{
  SelectPortalAppsRow, text_or_zero, int_or_zero, app_of_row, convert_to_portal_app,
  sqlc_portal_apps_to_portal_app_row, add_rows, sqlc_portal_apps_to_portal_apps,
}
use path_external_auth_serve.Store.{Store, empty_store, set_store_data, get_account_portal_app}
use path_external_auth_serve.Store.Accounts.{
  first_of_account, first_of_account_keyed, first_of_account_exists,
  lookup-set_portal_apps_by_account_id,
}
use path_external_auth_serve.RateLimit.{
  RateLimitedAccounts, get_rate_limit, should_limit_account, is_account_rate_limited,
  update_rate_limited_accounts_map,
}
use path_external_auth_serve.RateLimit.Limits.{should_limit_account_iff}
use path_external_auth_serve.RateLimit.Rows.{limit_of_plan, get_rate_limit-app_of_row}
use path_external_auth_serve.RateLimit.Update.{is_account_rate_limited-update}

-- The store of `main` from the rows, and the limited accounts from the usages.
abbrev pub stored : List SelectPortalAppsRow → Store
stored rows = (set_store_data (ok (sqlc_portal_apps_to_portal_apps rows)) empty_store).0

abbrev pub limited_by : Floats → List SelectPortalAppsRow → GoMap ℤ → RateLimitedAccounts
limited_by floats rows usages =
    (update_rate_limited_accounts_map floats (get_account_portal_app (stored rows)) (ok usages)
      []).0

-- The table of accounts.
pub record Accounts : Type 0 where
  pub plan : AccountId → PlanType
  pub monthly_user_limit : AccountId → ℤ

module _ (accounts : Accounts) where
  abbrev pub account_limit : AccountId → ℤ
  account_limit a = limit_of_plan (accounts.plan a) (accounts.monthly_user_limit a)

  -- Each row has the columns of its account.
  abbrev pub AreJoined : List SelectPortalAppsRow → Type 0
  AreJoined = All (λ row.
      (text_or_zero row.plan ≡ accounts.plan (text_or_zero row.account_id))
      × (int_or_zero row.monthly_user_limit
          ≡ accounts.monthly_user_limit (text_or_zero row.account_id)))

  -- The warehouse has reported a usage for the account that exceeds the limit of its plan.
  abbrev pub IsOver : GoMap ℤ → AccountId → Type 0
  IsOver usages a =
      (usage : ℤ) × (lookup a usages ≡ some usage)
      × (account_limit a ≢ pos 0)
      × (account_limit a <ℤ usage)

  abbrev HasAccountLimit : GoString × PortalApp → Type 0
  HasAccountLimit (_, app) = get_rate_limit app ≡ account_limit app.account_id

  app_of_row-HasAccountLimit :
      (row : SelectPortalAppsRow)
      → text_or_zero row.plan ≡ accounts.plan (text_or_zero row.account_id)
      → int_or_zero row.monthly_user_limit
        ≡ accounts.monthly_user_limit (text_or_zero row.account_id)
      → HasAccountLimit (row.id, app_of_row row)
  unfolding convert_to_portal_app sqlc_portal_apps_to_portal_app_row
  app_of_row-HasAccountLimit row plan limit =
      get_rate_limit-app_of_row row
      ∙ ap (λ p. limit_of_plan p (int_or_zero row.monthly_user_limit)) plan
      ∙ ap (limit_of_plan (accounts.plan (text_or_zero row.account_id))) limit

  insert-All :
      (id : PortalAppId) (app : PortalApp) (apps : GoMap PortalApp)
      → HasAccountLimit (id, app)
      → All HasAccountLimit apps
      → All HasAccountLimit (insert id app apps)
  unfolding insert
  insert-All id app [] h hs = (h, tt)
  insert-All id app ((other, old) ∷ apps) h (h', hs) = elim (Bool-cases (other == id)) [
    | inl same ↦ rw same (h, hs)
    | inr differs ↦ rw differs (h', insert-All id app apps h hs)
  ]

  add_rows-All :
      (rows : List SelectPortalAppsRow) (apps : GoMap PortalApp)
      → AreJoined rows
      → All HasAccountLimit apps
      → All HasAccountLimit (add_rows rows apps)
  unfolding add_rows
  add_rows-All [] apps joined hs = hs
  add_rows-All (row ∷ rows) apps ((plan, limit), joined) hs =
      add_rows-All rows (insert row.id (app_of_row row) apps) joined
        (insert-All row.id (app_of_row row) apps (app_of_row-HasAccountLimit row plan limit) hs)

  lookup-HasAccountLimit :
      (id : PortalAppId) (apps : GoMap PortalApp) {app : PortalApp}
      → All HasAccountLimit apps
      → lookup id apps ≡ some app
      → get_rate_limit app ≡ account_limit app.account_id
  unfolding lookup
  lookup-HasAccountLimit id [] hs found = cc
  lookup-HasAccountLimit id ((other, old) ∷ apps) {app} (h, hs) found =
      elim (Bool-cases (other == id)) [
        | inl same ↦ ground (arith, h)
        | inr differs ↦ lookup-HasAccountLimit id apps hs (unfold lookup in (rw differs at found))
      ]

  first_of_account-HasAccountLimit :
      (a : AccountId) (apps : GoMap PortalApp) {app : PortalApp}
      → All HasAccountLimit apps
      → first_of_account a apps ≡ some app
      → get_rate_limit app ≡ account_limit app.account_id
  first_of_account-HasAccountLimit a [] hs found = cc
  first_of_account-HasAccountLimit a ((other, old) ∷ apps) {app} (h, hs) found =
      elim (Bool-cases (old.account_id == a)) [
        | inl same ↦ ground (arith, h)
        | inr differs ↦ first_of_account-HasAccountLimit a apps hs (rw differs at found)
      ]

some_injective : {A : Type 0} → {x y : A} → some x ≡ some y → x ≡ y
some_injective h = cc h

above_when :
    (limit usage : ℤ) → should_limit_account limit usage ≡ true → (limit ≢ pos 0) × (limit <ℤ usage)
unfolding should_limit_account
above_when limit usage h = (λ e. ground (arith, h, e), ground (arith, h))

above_of :
    (limit usage : ℤ) → limit ≢ pos 0 → limit <ℤ usage → should_limit_account limit usage ≡ true
unfolding should_limit_account
above_of limit usage nonzero above = ground (arith, int_eq_iff limit (pos 0))

module _ (floats : Floats) (accounts : Accounts) (rows : List SelectPortalAppsRow) where
  apps-HasAccountLimit :
      AreJoined accounts rows
      → All (HasAccountLimit accounts) (sqlc_portal_apps_to_portal_apps rows)
  unfolding sqlc_portal_apps_to_portal_apps
  apps-HasAccountLimit joined = add_rows-All accounts rows [] joined tt

  account_app :
      (a : AccountId)
      → get_account_portal_app (stored rows) a
        ≡ first_of_account a (sqlc_portal_apps_to_portal_apps rows)
  unfolding get_account_portal_app set_store_data lookup
  account_app a = lookup-set_portal_apps_by_account_id a (sqlc_portal_apps_to_portal_apps rows) []

  -- The limit that an app of the store gets is that of its account.
  pub stored_limit :
      (id : PortalAppId) (app : PortalApp)
      → AreJoined accounts rows
      → lookup id (sqlc_portal_apps_to_portal_apps rows) ≡ some app
      → get_rate_limit app ≡ account_limit accounts app.account_id
  stored_limit id app joined found =
      lookup-HasAccountLimit accounts id (sqlc_portal_apps_to_portal_apps rows)
        (apps-HasAccountLimit joined) found

  -- The account of an app of the store is rate limited exactly when its usage exceeds the limit of
  -- its plan in the table of accounts.
  pub limited_iff-IsOver :
      (id : PortalAppId) (app : PortalApp) (usages : GoMap ℤ)
      → AreJoined accounts rows
      → HasDistinctKeys usages
      → lookup id (sqlc_portal_apps_to_portal_apps rows) ≡ some app
      → (is_account_rate_limited (limited_by floats rows usages) app.account_id ≡ true)
        ↔ IsOver accounts usages app.account_id
  limited_iff-IsOver id app usages joined distinct found =
      let a = app.account_id in
      let apps = sqlc_portal_apps_to_portal_apps rows in
      let limits = apps-HasAccountLimit joined in
      let (first, is_first) = first_of_account_exists id apps found in
      let by_usage =
        is_account_rate_limited-update floats (get_account_portal_app (stored rows)) a usages []
          distinct in
      let first_limit : get_rate_limit first ≡ account_limit accounts a =
        first_of_account-HasAccountLimit accounts a apps limits is_first
        ∙ ap (account_limit accounts) (first_of_account_keyed a apps is_first) in
      (
        λ h.
            let (usage, other, reported, known, over) = by_usage.0 h in
            let same : other ≡ first = some_injective (sym known ∙ account_app a ∙ is_first) in
            let limit : get_rate_limit other ≡ account_limit accounts a =
              ap get_rate_limit same ∙ first_limit in
            let exceeds =
              above_when (account_limit accounts a) usage
                (rw limit at ((should_limit_account_iff other usage).1 over)) in
            (usage, reported, exceeds.0, exceeds.1),
        λ (usage, reported, nonzero, above). by_usage.1 (
          usage,
          first,
          reported,
          account_app a ∙ is_first,
          (should_limit_account_iff first usage).0
              (rw (first_limit) (above_of (account_limit accounts a) usage nonzero above)),
        ),
      )
