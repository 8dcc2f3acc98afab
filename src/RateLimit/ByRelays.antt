-- ===== src/RateLimit/ByRelays.antt =====
-- Which accounts are rate limited after an update, told from the table of relays of the warehouse:
-- updateRateLimitedAccounts of ratelimit/ratelimit_store.go behind the query of dwh/driver.go.
use path_external_auth_serve.Base.{
  ℤ, ◌≤ℤ◌, leb_ℤ, lookup, ok, true, none, some, List, map, HaveSameMembers, ◌≡◌, ◌↔◌, subst, arith,
  Bool-cases, inl, inr,
}
use path_external_auth_serve.PortalApp.{AccountId, PortalApp}
use path_external_auth_serve.Metrics.{Floats}
use path_external_auth_serve.Dwh.{
  MonthlyUsageRow, Driver, get_monthly_usage_query, get_month_to_moment_usage,
}
use path_external_auth_serve.Dwh.Query.{RelaysRow, Month, monthly_usage_query}
use path_external_auth_serve.Dwh.Query.Totals.{
  relays_in_month, get_month_to_moment_usage-relays_in_month,
}
use path_external_auth_serve.RateLimit.{
  AccountPortalAppStore, RateLimitedAccounts, free_monthly_relays, is_account_rate_limited,
  update_rate_limited_accounts_map,
}
use path_external_auth_serve.RateLimit.Limits.{Exceeds}
use path_external_auth_serve.RateLimit.Update.{is_account_rate_limited-update}

-- An app of the account is known, and the relays of the month exceed its documented limit and are a
-- million or more.
pub record IsDueForLimit (get_app : AccountPortalAppStore) (a : AccountId) (used : ℤ) : Type 0 where
  pub app : PortalApp
  pub known : get_app a ≡ some app
  pub exceeds : Exceeds app used
  pub reported : free_monthly_relays ≤ℤ used

module _ (floats : Floats) (get_app : AccountPortalAppStore) (d : Driver) (month : Month)
    (relays : List RelaysRow) (rows : List MonthlyUsageRow) where
  -- After an update for which BigQuery gave the rows of the query over the table of relays, in any
  -- order, an account is rate limited exactly when the portal app store knows its app, its relays
  -- since the first day of the month exceed the documented limit of that app's plan, and they are a
  -- million or more: a custom limit below a million is enforced at a million only.
  pub limited_after_update_iff :
      (accounts : RateLimitedAccounts) (a : AccountId)
      → d.client_bq (get_monthly_usage_query d.project_id free_monthly_relays) ≡ ok (map ok rows)
      → HaveSameMembers rows (monthly_usage_query month free_monthly_relays relays)
      → (is_account_rate_limited
            (update_rate_limited_accounts_map floats get_app
              (get_month_to_moment_usage d free_monthly_relays)
              accounts).0
            a
          ≡ true)
        ↔ IsDueForLimit get_app a (relays_in_month month a relays)
  limited_after_update_iff accounts a ran same =
      let used = relays_in_month month a relays in
      let (usages, answered, distinct, totals) =
        get_month_to_moment_usage-relays_in_month month free_monthly_relays relays d rows ran same
          (omega arith) in
      let by_usage = is_account_rate_limited-update floats get_app a usages accounts distinct in
      rw answered (
        λ h.
            let (usage, app, reported, known, over) = by_usage.0 h in
            elim (Bool-cases (leb_ℤ free_monthly_relays used)) [
              | inl many ↦
                  let has : lookup a usages ≡ some used = rw many at (totals a) in
                  let is_used : usage ≡ used = cc (has, reported) in
                  record {
                    app = app;
                    known = known;
                    exceeds = subst (Exceeds app) is_used over;
                    reported = ground (arith, many);
                  }
              | inr few ↦
                  let absent : lookup a usages ≡ none = rw few at (totals a) in
                  cc (absent, reported)
            ],
        λ h.
            let many : leb_ℤ free_monthly_relays used ≡ true = ground (arith, h.reported) in
            by_usage.1 (used, h.app, rw many at (totals a), h.known, h.exceeds),
      )
