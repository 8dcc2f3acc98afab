-- ===== src/Metrics/Sizes.antt =====
-- What the gauge store_size_total shows: the sizes that store/portal_app_store.go and
-- ratelimit/ratelimit_store.go report through metrics/auth_metrics.go.
use mathlib.Core.List.{append_assoc, append-nil}
use path_external_auth_serve.Base.{
  ℕ, ℤ, pos, int_Eq, GoMap, length, Result, ok, err, Bool, true, false, Option, none, some, List,
  [], ◌∷◌, ◌++◌, All-append, ◌≡◌, refl, sym, ◌∙◌, subst, if◌then◌else◌, ◌==◌, string_Eq,
}
use path_external_auth_serve.PortalApp.{AccountId, PortalApp}
use path_external_auth_serve.Metrics.{
  Floats, MetricOp, update_store_size, portal_apps_store_type, accounts_store_type,
  rate_limited_accounts_store_type, record_data_source_refresh_error, update_account_usage,
  update_rate_limited_accounts,
}
use path_external_auth_serve.Store.{
  Store, Fetched, set_store_data, initialize_store, new_portal_app_store, refresh_store,
  refresh_loop, update_store_metrics as store_metrics,
}
use path_external_auth_serve.RateLimit.{
  AccountPortalAppStore, Usage, RateLimitedAccounts, get_rate_limit, should_limit_account,
  limit_account, update_account, update_accounts, update_rate_limited_accounts_map,
  new_rate_limit_store, monitoring_loop, update_store_metrics as limit_metrics,
}
use path_external_auth_serve.Metrics.Gauge.{size_set, shown, shown-append, IsSilent}

module _ (floats : Floats) where
  same_outcome :
      {A : Type 0} (P : List (MetricOp floats.Float) → A → Type 0) {x y : A}
      {ops others : List (MetricOp floats.Float)}
      → ◌≡◌ {A = Result A × List (MetricOp floats.Float)} (ok x, ops) (ok y, others)
      → P ops x
      → P others y
  same_outcome P {x} {y} {ops} {others} h shows =
      let same : x ≡ y = cc h in
      let told : ops ≡ others = cc h in subst (P others) same (subst (λ l. P l x) told shows)

  abbrev size : ℕ → Option floats.Float
  size n = some (floats.of_int (pos n))

  -- The gauge shows the sizes of both maps of the store.
  abbrev ShowsStore : List (MetricOp floats.Float) → Store → Type 0
  ShowsStore ops s =
      (shown portal_apps_store_type ops none ≡ size (length s.portal_apps))
      × (shown accounts_store_type ops none ≡ size (length s.account_portal_apps))

  refresh_store-ShowsStore :
      (fetched : Fetched) (s : Store) (ops : List (MetricOp floats.Float))
      → ShowsStore ops s
      → ShowsStore (ops ++ (refresh_store floats fetched s).2) (refresh_store floats fetched s).0
  unfolding refresh_store store_metrics update_store_size record_data_source_refresh_error shown
  refresh_store-ShowsStore (ok apps) s ops (apps_shown, accounts_shown) =
      (shown-append portal_apps_store_type ops _ none, shown-append accounts_store_type ops _ none)
  refresh_store-ShowsStore (err m) s ops (apps_shown, accounts_shown) = (
    shown-append portal_apps_store_type ops _ none ∙ apps_shown,
    shown-append accounts_store_type ops _ none ∙ accounts_shown,
  )

  refresh_loop-ShowsStore :
      (ticks : List Fetched) (s : Store) (ops : List (MetricOp floats.Float))
      → ShowsStore ops s
      → ShowsStore (ops ++ (refresh_loop floats ticks s).1) (refresh_loop floats ticks s).0
  unfolding refresh_loop
  refresh_loop-ShowsStore [] s ops shows = subst (λ l. ShowsStore l s) (sym (append-nil ops)) shows
  refresh_loop-ShowsStore (fetched ∷ ticks) s ops shows =
      subst (λ l. ShowsStore l (refresh_loop floats (fetched ∷ ticks) s).0) (append_assoc ops _ _)
        (refresh_loop-ShowsStore ticks (refresh_store floats fetched s).0
          (ops ++ (refresh_store floats fetched s).2)
          (refresh_store-ShowsStore fetched s ops shows))

  new_portal_app_store-ShowsStore :
      (fetched : Fetched) (s : Store) (ops : List (MetricOp floats.Float))
      → new_portal_app_store floats fetched ≡ (ok s, ops)
      → ShowsStore ops s
  unfolding new_portal_app_store initialize_store set_store_data store_metrics update_store_size
      shown
  new_portal_app_store-ShowsStore (err m) s ops h = cc h
  new_portal_app_store-ShowsStore (ok apps) s ops h = same_outcome ShowsStore h (refl, refl)

  -- The gauge shows the number of the limited accounts.
  abbrev ShowsLimited : List (MetricOp floats.Float) → RateLimitedAccounts → Type 0
  ShowsLimited ops accounts =
      shown rate_limited_accounts_store_type ops none ≡ size (length accounts)

  either-IsSilent :
      {A : Type 0} (test : Bool) (x y : A × List (MetricOp floats.Float))
      → IsSilent rate_limited_accounts_store_type x.1
      → IsSilent rate_limited_accounts_store_type y.1
      → IsSilent rate_limited_accounts_store_type (if test then x else y).1
  either-IsSilent true x y hx hy = hx
  either-IsSilent false x y hx hy = hy

  update_account-IsSilent :
      (a : AccountId) (app : Option PortalApp) (usage : ℤ) (accounts : RateLimitedAccounts)
      → IsSilent rate_limited_accounts_store_type (update_account floats a app usage accounts).1
  unfolding update_account limit_account update_account_usage update_rate_limited_accounts size_set
  update_account-IsSilent a none usage accounts = tt
  update_account-IsSilent a (some app) usage accounts =
      either-IsSilent (get_rate_limit app == pos 0) _ _ tt (
        either-IsSilent (should_limit_account (get_rate_limit app) usage) _ _ (refl, (refl, tt))
          (refl, tt))

  update_accounts-IsSilent :
      (get_app : AccountPortalAppStore) (usages : GoMap ℤ) (accounts : RateLimitedAccounts)
      → IsSilent rate_limited_accounts_store_type (update_accounts floats get_app usages accounts).1
  unfolding update_accounts
  update_accounts-IsSilent get_app [] accounts = tt
  update_accounts-IsSilent get_app ((a, usage) ∷ usages) accounts =
      All-append _ _ _ (update_account-IsSilent a (get_app a) usage accounts)
        (update_accounts-IsSilent get_app usages _)

  update-ShowsLimited :
      (get_app : AccountPortalAppStore) (usage : Usage) (accounts : RateLimitedAccounts)
      (ops : List (MetricOp floats.Float))
      → ShowsLimited ops accounts
      → ShowsLimited
          (ops ++ (update_rate_limited_accounts_map floats get_app usage accounts).2)
          (update_rate_limited_accounts_map floats get_app usage accounts).0
  unfolding update_rate_limited_accounts_map record_data_source_refresh_error limit_metrics
      update_store_size shown
  update-ShowsLimited get_app (err m) accounts ops shows =
      shown-append rate_limited_accounts_store_type ops _ none ∙ shows
  update-ShowsLimited get_app (ok usages) accounts ops shows =
      shown-append rate_limited_accounts_store_type ops _ none
      ∙ shown-append rate_limited_accounts_store_type (update_accounts floats get_app usages []).1 _
          _

  monitoring_loop-ShowsLimited :
      (ticks : List (AccountPortalAppStore × Usage)) (accounts : RateLimitedAccounts)
      (ops : List (MetricOp floats.Float))
      → ShowsLimited ops accounts
      → ShowsLimited
          (ops ++ (monitoring_loop floats ticks accounts).1)
          (monitoring_loop floats ticks accounts).0
  unfolding monitoring_loop
  monitoring_loop-ShowsLimited [] accounts ops shows =
      subst (λ l. ShowsLimited l accounts) (sym (append-nil ops)) shows
  monitoring_loop-ShowsLimited ((get_app, usage) ∷ ticks) accounts ops shows =
      subst (λ l. ShowsLimited l (monitoring_loop floats ((get_app, usage) ∷ ticks) accounts).0)
        (append_assoc ops _ _)
        (monitoring_loop-ShowsLimited ticks _
          (ops ++ (update_rate_limited_accounts_map floats get_app usage accounts).2)
          (update-ShowsLimited get_app usage accounts ops shows))

  -- a failed check before any, which sets both sizes to zero
  new_rate_limit_store-ShowsLimited :
      (get_app : AccountPortalAppStore) (usage : Usage) (accounts : RateLimitedAccounts)
      (ops : List (MetricOp floats.Float))
      → new_rate_limit_store floats get_app usage ≡ (ok accounts, ops)
      → ShowsLimited ops accounts
  unfolding new_rate_limit_store update_rate_limited_accounts_map record_data_source_refresh_error
      limit_metrics update_store_size shown
  new_rate_limit_store-ShowsLimited get_app (err m) accounts ops h =
      same_outcome ShowsLimited h refl
  new_rate_limit_store-ShowsLimited get_app (ok usages) accounts ops h =
      same_outcome ShowsLimited h (
        shown-append rate_limited_accounts_store_type (update_accounts floats get_app usages []).1 _
          none)

  -- From the start on, whatever is fetched and answered, the gauge store_size_total shows the number
  -- of portal apps and of accounts that the portal app store holds, and the number of accounts that
  -- the rate limit store holds: failed refreshes and updates change neither the stores nor what is
  -- shown of them.
  pub shown_sizes :
      (fetched : Fetched) (fetches : List Fetched) (store : Store)
      (store_ops : List (MetricOp floats.Float)) (get_app : AccountPortalAppStore) (usage : Usage)
      (ticks : List (AccountPortalAppStore × Usage)) (accounts : RateLimitedAccounts)
      (limit_ops : List (MetricOp floats.Float))
      → new_portal_app_store floats fetched ≡ (ok store, store_ops)
      → new_rate_limit_store floats get_app usage ≡ (ok accounts, limit_ops)
      → ShowsStore
          (store_ops ++ (refresh_loop floats fetches store).1)
          (refresh_loop floats fetches store).0
        × ShowsLimited
            (limit_ops ++ (monitoring_loop floats ticks accounts).1)
            (monitoring_loop floats ticks accounts).0
  shown_sizes fetched fetches store store_ops get_app usage ticks accounts limit_ops made checked =
      (
        refresh_loop-ShowsStore fetches store store_ops
            (new_portal_app_store-ShowsStore fetched store store_ops made),
        monitoring_loop-ShowsLimited ticks accounts limit_ops
            (new_rate_limit_store-ShowsLimited get_app usage accounts limit_ops checked),
      )
