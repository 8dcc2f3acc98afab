-- ===== src/RateLimit.antt =====
-- The store of rate limited accounts: ratelimit/ratelimit_store.go. The usage that the data
-- warehouse answers and the lookup of an account's portal app are arguments; a method returns the
-- store's map, its `error` and the metrics that it reports.
pub mod Limits
pub mod Rounds
pub mod Update
pub mod Rows
pub mod Threshold
pub mod ByRelays
use path_external_auth_serve.Base.{
  GoString, bytes, ℤ, pos, ltb_ℤ, int_Eq, GoMap, lookup, insert, length, Result, ok, err, Run,
  returns, panics, Bool, true, false, Option, none, some, List, [], ◌∷◌, ◌++◌, if◌then◌else◌, ◌==◌,
  string_Eq,
}
use path_external_auth_serve.PortalApp.{AccountId, PortalApp, RateLimit}
use path_external_auth_serve.Grove.{plan_free, plan_unlimited}
use path_external_auth_serve.Metrics.{
  Floats, MetricOp, record_data_source_refresh_error, update_store_size, update_account_usage,
  update_rate_limited_accounts, rate_limit_store_source_type, bigquery_error_type,
  accounts_over_monthly_limit_store_type, rate_limited_accounts_store_type,
}

abbrev pub free_monthly_relays : ℤ
free_monthly_relays = pos 1_000_000

-- `accountPortalAppStore`, the interface to the portal app store
abbrev pub AccountPortalAppStore : Type 0
AccountPortalAppStore = AccountId → Option PortalApp

-- What `dataWarehouseDriver.GetMonthToMomentUsage` returns.
abbrev pub Usage : Type 0
Usage = Result (GoMap ℤ)

abbrev pub RateLimitedAccounts : Type 0
RateLimitedAccounts = GoMap Bool

unfoldable pub is_account_rate_limited : RateLimitedAccounts → AccountId → Bool
is_account_rate_limited accounts account_id = elim (lookup account_id accounts) [
  | none ↦ false
  | some _ ↦ true
]

-- the switch over the plan
abbrev pub plan_rate_limit : PortalApp → RateLimit → ℤ
plan_rate_limit app limit =
    if app.plan_type == plan_free
    then free_monthly_relays
    else if app.plan_type == plan_unlimited
    then (if ltb_ℤ (pos 0) limit.monthly_user_limit then limit.monthly_user_limit else pos 0)
    else pos 0

unfoldable pub get_rate_limit : PortalApp → ℤ
get_rate_limit app = elim app.rate_limit [ none ↦ pos 0 | some limit ↦ plan_rate_limit app limit ]

unfoldable pub should_limit_account : ℤ → ℤ → Bool
should_limit_account rate_limit usage =
    if rate_limit == pos 0 then false else ltb_ℤ rate_limit usage

module _ (floats : Floats) where
  abbrev pub Ops : Type 0
  Ops = List (MetricOp floats.Float)

  unfoldable pub update_store_metrics : ℤ → ℤ → Ops
  update_store_metrics accounts_over_limit rate_limited_accounts =
      update_store_size accounts_over_monthly_limit_store_type (floats.of_int accounts_over_limit)
      ++ update_store_size rate_limited_accounts_store_type (floats.of_int rate_limited_accounts)

  -- the part of a round of the loop behind its two `continue`s
  unfoldable pub limit_account :
      AccountId → PortalApp → ℤ → ℤ → RateLimitedAccounts → RateLimitedAccounts × Ops
  unfolding should_limit_account
  limit_account account_id app rate_limit usage accounts =
      let used = update_account_usage account_id app.plan_type (floats.of_int usage) rate_limit in
      if should_limit_account rate_limit usage
      then (
        insert account_id true accounts,
        used
            ++ update_rate_limited_accounts floats account_id app.plan_type (floats.of_int usage)
                rate_limit,
      )
      else (accounts, used)

  -- one round of the loop of `updateRateLimitedAccounts`
  unfoldable pub update_account :
      AccountId → Option PortalApp → ℤ → RateLimitedAccounts → RateLimitedAccounts × Ops
  unfolding get_rate_limit limit_account
  update_account account_id none usage accounts = (accounts, [])
  update_account account_id (some app) usage accounts =
      if get_rate_limit app == pos 0
      then (accounts, [])
      else limit_account account_id app (get_rate_limit app) usage accounts

  module _ (get_account_portal_app : AccountPortalAppStore) where
    -- the loop, over the map that it fills
    unfoldable pub update_accounts : GoMap ℤ → RateLimitedAccounts → RateLimitedAccounts × Ops
    unfolding update_account
    update_accounts [] accounts = (accounts, [])
    update_accounts ((account_id, usage) ∷ usages) accounts =
        let (accounts', ops) =
          update_account account_id (get_account_portal_app account_id) usage accounts in
        let (last, later) = update_accounts usages accounts' in (last, ops ++ later)

    unfoldable pub update_rate_limited_accounts_map :
        Usage → RateLimitedAccounts → RateLimitedAccounts × Option GoString × Ops
    unfolding update_accounts update_store_metrics
    update_rate_limited_accounts_map (err message) accounts = (
      accounts,
      some (bytes "failed to get monthly usage data: " ++ message),
      record_data_source_refresh_error rate_limit_store_source_type bigquery_error_type,
    )
    update_rate_limited_accounts_map (ok usages) accounts =
        let (limited, ops) = update_accounts usages [] in
        (limited, none, ops ++ update_store_metrics (pos (length usages)) (pos (length limited)))

    -- a failed initial check is logged, and its metrics are set to zero
    abbrev pub after_initial_check :
        RateLimitedAccounts × Option GoString × Ops → RateLimitedAccounts × Ops
    after_initial_check (accounts, some _, ops) =
        (accounts, ops ++ update_store_metrics (pos 0) (pos 0))
    after_initial_check (accounts, none, ops) = (accounts, ops)

    -- never an error; the goroutine that it starts is `start_rate_limit_monitoring`
    unfoldable pub new_rate_limit_store : Usage → Result RateLimitedAccounts × Ops
    unfolding update_rate_limited_accounts_map
    new_rate_limit_store usage =
        let (accounts, ops) = after_initial_check (update_rate_limited_accounts_map usage []) in
        (ok accounts, ops)

-- the loop over the ticks that have come, each with the portal app store at that time; a failed
-- update is logged and the loop goes on
module _ (floats : Floats) where
  unfoldable pub monitoring_loop :
      List (AccountPortalAppStore × Usage)
      → RateLimitedAccounts
      → RateLimitedAccounts × List (MetricOp floats.Float)
  unfolding update_rate_limited_accounts_map
  monitoring_loop [] accounts = (accounts, [])
  monitoring_loop ((get_app, usage) ∷ ticks) accounts =
      let (accounts', _, ops) = update_rate_limited_accounts_map floats get_app usage accounts in
      let (last, later) = monitoring_loop ticks accounts' in (last, ops ++ later)

  -- time.NewTicker panics for an interval that is not positive
  unfoldable pub start_rate_limit_monitoring :
      ℤ
      → List (AccountPortalAppStore × Usage)
      → RateLimitedAccounts
      → Run (RateLimitedAccounts × List (MetricOp floats.Float))
  unfolding monitoring_loop
  start_rate_limit_monitoring update_interval ticks accounts =
      if ltb_ℤ (pos 0) update_interval
      then returns (monitoring_loop ticks accounts)
      else panics (bytes "non-positive interval for NewTicker")
