-- ===== src/Store.antt =====
-- The in-memory portal app store: store/portal_app_store.go, over the interface of
-- store/data_source.go. What the data source answers to a fetch is an argument; a method returns
-- the store, its `error` and the metrics that it reports. Each map is replaced or written under its
-- own lock, so a method is taken as one step here;
-- System.antt takes the locked sections one by one.
pub mod Accounts
pub mod Refresh
use path_external_auth_serve.Base.{
  GoString, bytes, ℤ, pos, ltb_ℤ, GoMap, lookup, insert, length, Result, ok, err, Run, returns,
  panics, Option, none, some, List, [], ◌∷◌, ◌++◌, if◌then◌else◌,
}
use path_external_auth_serve.PortalApp.{PortalAppId, AccountId, PortalApp}
use path_external_auth_serve.Metrics.{
  Floats, MetricOp, record_data_source_refresh_error, update_store_size,
  portal_app_store_source_type, postgres_error_type, portal_apps_store_type, accounts_store_type,
}

pub record Store : Type 0 where
  pub portal_apps : GoMap PortalApp
  pub account_portal_apps : GoMap PortalApp

-- What `DataSource.GetPortalApps` returns.
abbrev pub Fetched : Type 0
Fetched = Result (GoMap PortalApp)

abbrev pub empty_store : Store
empty_store = record { portal_apps = []; account_portal_apps = [] }

unfoldable pub get_portal_app : Store → PortalAppId → Option PortalApp
get_portal_app s portal_app_id = lookup portal_app_id s.portal_apps

unfoldable pub get_account_portal_app : Store → AccountId → Option PortalApp
get_account_portal_app s account_id = lookup account_id s.account_portal_apps

-- one round of the loop of `setPortalAppsByAccountID`
unfoldable pub set_if_absent : PortalApp → GoMap PortalApp → GoMap PortalApp
set_if_absent app accounts = elim (lookup app.account_id accounts) [
  | none ↦ insert app.account_id app accounts
  | some _ ↦ accounts
]

unfoldable pub set_portal_apps_by_account_id : GoMap PortalApp → GoMap PortalApp → GoMap PortalApp
unfolding set_if_absent
set_portal_apps_by_account_id [] accounts = accounts
set_portal_apps_by_account_id ((_, app) ∷ apps) accounts =
    set_portal_apps_by_account_id apps (set_if_absent app accounts)

unfoldable pub set_store_data : Fetched → Store → Store × Option GoString
set_store_data (err message) s =
    (s, some (bytes "failed to get portal apps from data source: " ++ message))
set_store_data (ok portal_apps) s = (
  record {
    portal_apps = portal_apps;
    account_portal_apps = set_portal_apps_by_account_id portal_apps s.account_portal_apps;
  },
  none,
)

module _ (floats : Floats) where
  abbrev pub Ops : Type 0
  Ops = List (MetricOp floats.Float)

  unfoldable pub update_store_metrics : Store → Ops
  update_store_metrics s =
      update_store_size portal_apps_store_type (floats.of_int (pos (length s.portal_apps)))
      ++ update_store_size accounts_store_type (floats.of_int (pos (length s.account_portal_apps)))

  -- what `initializeStore` and `refreshStore` do with the outcome of `setStoreData`
  abbrev pub report : GoString → Store × Option GoString → Store × Option GoString × Ops
  report before (s, some message) = (
    s,
    some (before ++ message),
    record_data_source_refresh_error portal_app_store_source_type postgres_error_type,
  )
  report before (s, none) = (s, none, update_store_metrics s)

  unfoldable pub initialize_store : Fetched → Store → Store × Option GoString × Ops
  unfolding set_store_data
  initialize_store fetched s =
      report (bytes "failed to set initial store data: ") (set_store_data fetched s)

  unfoldable pub refresh_store : Fetched → Store → Store × Option GoString × Ops
  unfolding set_store_data
  refresh_store fetched s =
      report (bytes "failed to refresh store data: ") (set_store_data fetched s)

  -- the store, or the error; the goroutine that it starts is `start_background_refresh`
  abbrev pub created : Store × Option GoString × Ops → Result Store × Ops
  created (s, some message, ops) =
      (err (bytes "failed to initialize portal app store: " ++ message), ops)
  created (s, none, ops) = (ok s, ops)

  unfoldable pub new_portal_app_store : Fetched → Result Store × Ops
  unfolding initialize_store
  new_portal_app_store fetched = created (initialize_store fetched empty_store)

  -- the loop over the ticks that have come; a failed refresh is logged and the loop goes on
  unfoldable pub refresh_loop : List Fetched → Store → Store × Ops
  unfolding refresh_store
  refresh_loop [] s = (s, [])
  refresh_loop (fetched ∷ ticks) s =
      let (s', _, ops) = refresh_store fetched s in
      let (last, later) = refresh_loop ticks s' in (last, ops ++ later)

  -- time.NewTicker panics for an interval that is not positive; the interval is in nanoseconds
  unfoldable pub start_background_refresh : ℤ → List Fetched → Store → Run (Store × Ops)
  unfolding refresh_loop
  start_background_refresh refresh_interval ticks s =
      if ltb_ℤ (pos 0) refresh_interval
      then returns (refresh_loop ticks s)
      else panics (bytes "non-positive interval for NewTicker")
