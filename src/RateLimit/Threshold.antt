-- ===== src/RateLimit/Threshold.antt =====
-- The threshold of the usage query: updateRateLimitedAccounts of ratelimit/ratelimit_store.go asks
-- dwh/driver.go for the accounts with a million relays or more, whatever limits the accounts have.
use path_external_auth_serve.Base.{
  GoString, ℤ, GoMap, ok, false, none, List, map, ◌≡◌, ◌<ℤ◌, ◌≤ℤ◌, sym, ◌∙◌, arith, All, Bool-cases,
  inl, inr, string_Eq,
}
use path_external_auth_serve.PortalApp.{AccountId}
use path_external_auth_serve.Metrics.{Floats}
use path_external_auth_serve.Dwh.{
  MonthlyUsageRow, BigQuery, Driver, get_monthly_usage_query, get_month_to_moment_usage,
}
use path_external_auth_serve.Dwh.Usage.{last_total_sound, get_month_to_moment_usage_sound}
use path_external_auth_serve.RateLimit.{
  AccountPortalAppStore, RateLimitedAccounts, free_monthly_relays, is_account_rate_limited,
  update_rate_limited_accounts_map,
}
use path_external_auth_serve.RateLimit.Update.{is_account_rate_limited-update}

-- The HAVING clause of the query: every row that it gives has its account's true usage of the
-- month, and that usage is the threshold or more.
abbrev HonoursQuery : BigQuery → GoString → (AccountId → ℤ) → ℤ → Type 0
HonoursQuery bigquery project_id used threshold =
    (rows : List MonthlyUsageRow)
    → bigquery (get_monthly_usage_query project_id threshold) ≡ ok (map ok rows)
    → All (λ row. (row.total_relays ≡ used row.account_id) × (threshold ≤ℤ row.total_relays)) rows

-- Where the rows that the warehouse answers are true and honour the query's HAVING clause, after an
-- update that it answered an account with fewer than a million relays in the month is not rate
-- limited, whatever custom limit its plan gives it.
not_limited_below_threshold :
    (floats : Floats) (get_app : AccountPortalAppStore) (d : Driver) (used : AccountId → ℤ)
    (a : AccountId) (accounts : RateLimitedAccounts) (usages : GoMap ℤ)
    → HonoursQuery d.client_bq d.project_id used free_monthly_relays
    → get_month_to_moment_usage d free_monthly_relays ≡ ok usages
    → used a <ℤ free_monthly_relays
    → is_account_rate_limited
        (update_rate_limited_accounts_map floats get_app
          (get_month_to_moment_usage d free_monthly_relays)
          accounts).0
        a
      ≡ false
not_limited_below_threshold floats get_app d used a accounts usages honours answered few =
    let (rows, ran, distinct, totals) =
      get_month_to_moment_usage_sound d free_monthly_relays usages answered in
    let after = (update_rate_limited_accounts_map floats get_app (ok usages) accounts).0 in
    rw answered (elim (Bool-cases (is_account_rate_limited after a)) [
      | inr free ↦ free
      | inl over ↦
          let (usage, app, reported, known, exceeds) =
            (is_account_rate_limited-update floats get_app a usages accounts distinct).0 over in
          let facts =
            last_total_sound used free_monthly_relays a rows none (honours rows ran) (λ t e. cc e)
              usage (sym (totals a) ∙ reported) in
          absurd (ground (arith, facts, few))
    ])
