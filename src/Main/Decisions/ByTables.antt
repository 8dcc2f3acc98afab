-- ===== src/Main/Decisions/ByTables.antt =====
-- The decision of the server that main.go starts, told from the tables behind it: those of the
-- portal's database and the relays of the warehouse.
use path_external_auth_serve.Base.{
  pos, ◌<ℤ◌, ◌≤ℤ◌, ok, none, List, [], map, Member, HaveSameMembers, find, ◌≡◌, ◌≢◌, false, ◌==◌,
  string_Eq,
}
use path_external_auth_serve.PortalApp.{PortalAppId, AccountId}
use path_external_auth_serve.Metrics.{Floats}
use path_external_auth_serve.Http.{Header}
use path_external_auth_serve.Grove.{SelectPortalAppsRow, text_or_zero, select_portal_apps}
use path_external_auth_serve.Grove.Query.{
  PortalApplicationsRow, Database, KeepsSchema, select_portal_apps_query,
}
use path_external_auth_serve.Grove.Query.Joined.{row_of}
use path_external_auth_serve.Dwh.{MonthlyUsageRow, get_monthly_usage_query}
use path_external_auth_serve.Dwh.Query.{RelaysRow, Month, monthly_usage_query}
use path_external_auth_serve.Dwh.Query.Totals.{relays_in_month}
use path_external_auth_serve.Store.{Store}
use path_external_auth_serve.RateLimit.{RateLimitedAccounts, free_monthly_relays}
use path_external_auth_serve.Main.{World}
use path_external_auth_serve.Main.Ready.{IsReady}
use path_external_auth_serve.Main.Decisions.Plans.{account_limit}
use path_external_auth_serve.Main.Decisions.RowApps.{HasKeyPresented}
use path_external_auth_serve.Main.Decisions.Tables.{accounts_of}

module _ (db : Database) (month : Month) (relays : List RelaysRow) where
  -- The account has a limit, and its relays of the month exceed it and are a million or more.
  pub record HasExhausted (a : AccountId) : Type 0 where
    pub limited : account_limit (accounts_of db) a ≢ pos 0
    pub above : account_limit (accounts_of db) a <ℤ relays_in_month month a relays
    pub reported : free_monthly_relays ≤ℤ relays_in_month month a relays

  -- The application in use with the ID: the key of its settings is presented if it is required, and
  -- its account has not exhausted its limit.
  pub record HasApplication (id : PortalAppId) (headers : Header) : Type 0 where
    pub application : PortalApplicationsRow
    pub listed : Member application db.portal_applications
    pub in_use : application.deleted ≡ false
    pub named : application.id ≡ id
    pub key_presented : HasKeyPresented (row_of db application) headers
    pub not_exhausted : ¬ HasExhausted (text_or_zero application.account_id)

-- The tables keep the schema, no account has the empty ID, and Postgres and BigQuery answer the
-- queries of `main` by the rows that the queries ask for, in any order.
pub record AnswersFromTables {Config Pool : Type 0} (floats : Floats) (w : World Config Pool)
    {store : Store} {limited : RateLimitedAccounts} (ready : IsReady floats w store limited)
    (db : Database) (month : Month) (relays : List RelaysRow) : Type 0 where
  pub keeps : KeepsSchema db
  pub no_empty_id : find (λ account. account.id == []) db.accounts ≡ none
  pub rows : List SelectPortalAppsRow
  pub scanned : select_portal_apps (w.query ready.pool) ≡ ok rows
  pub rows_asked : HaveSameMembers rows (select_portal_apps_query db)
  pub usage_rows : List MonthlyUsageRow
  pub answered :
      ready.big_query (get_monthly_usage_query ready.env.gcp_project_id free_monthly_relays)
      ≡ ok (map ok usage_rows)
  pub usage_asked :
      HaveSameMembers usage_rows (monthly_usage_query month free_monthly_relays relays)
