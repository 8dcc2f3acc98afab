-- ===== src/Main/Stages.antt =====
-- What a run of main.go serves, and what its constructors return.
use path_external_auth_serve.Base.{
  GoString, GoMap, Result, ok, err, Option, none, some, List, [], ◌∷◌, ◌++◌, ◌≡◌, refl, ap,
}
use path_external_auth_serve.PortalApp.{PortalApp}
use path_external_auth_serve.Metrics.{Floats, MetricOp}
use path_external_auth_serve.Dwh.{BigQuery, Driver, new_driver, get_month_to_moment_usage}
use path_external_auth_serve.Store.{
  Store, Fetched, set_portal_apps_by_account_id, get_account_portal_app, new_portal_app_store,
  initialize_store, set_store_data,
}
use path_external_auth_serve.RateLimit.{
  RateLimitedAccounts, AccountPortalAppStore, after_initial_check, free_monthly_relays,
  new_rate_limit_store, update_rate_limited_accounts_map,
}
use path_external_auth_serve.Main.Effects.{
  Connection, Event, reported, opened, closed, started, listening, serving, Outcome, closing,
}

-- The stores of the gRPC server, once it takes requests.
abbrev pub served : {F : Type 0} → List (Event F) → Option (Store × RateLimitedAccounts)
served [] = none
served (serving store limited ∷ events) = some (store, limited)
served (_ ∷ events) = served events

-- The address on which the gRPC server listens.
abbrev pub listened : {F : Type 0} → List (Event F) → Option GoString
listened [] = none
listened (listening address ∷ events) = some address
listened (_ ∷ events) = listened events

-- The rate limited accounts after the initial check.
abbrev pub initially_limited : Floats → Driver → Store → RateLimitedAccounts
initially_limited floats driver store =
    (update_rate_limited_accounts_map floats (get_account_portal_app store)
      (get_month_to_moment_usage driver free_monthly_relays) []).0

module _ {F : Type 0} where
  pub served-closed :
      (c : Connection) (events : List (Event F)) → served (events ++ closed c ∷ []) ≡ served events
  served-closed c [] = refl
  served-closed c (opened d ∷ events) = served-closed c events
  served-closed c (closed d ∷ events) = served-closed c events
  served-closed c (reported ops ∷ events) = served-closed c events
  served-closed c (started g ∷ events) = served-closed c events
  served-closed c (listening a ∷ events) = served-closed c events
  served-closed c (serving s l ∷ events) = refl

  pub served-closing :
      (c : Connection) (rest : Outcome F (Unit {0}))
      → served (closing c rest).trace ≡ served rest.trace
  served-closing c rest = served-closed c rest.trace

pub ok_injective : {A : Type 0} → {x y : A} → ok x ≡ ok y → x ≡ y
ok_injective h = cc h

pub new_driver_ok :
    (client : Result BigQuery) (project_id : GoString) (driver : Driver)
    → new_driver client project_id ≡ ok driver
    → (big_query : BigQuery) × (client ≡ ok big_query)
      × (driver ≡ record { client_bq = big_query; project_id = project_id })
unfolding new_driver
new_driver_ok (err message) project_id driver h = cc h
new_driver_ok (ok big_query) project_id driver h = (big_query, refl, cc h)

module _ (floats : Floats) where
  initial_check_keeps_accounts :
      (get_app : AccountPortalAppStore)
      (update : RateLimitedAccounts × Option GoString × List (MetricOp floats.Float))
      → (after_initial_check floats get_app update).0 ≡ update.0
  initial_check_keeps_accounts get_app (accounts, some message, ops) = refl
  initial_check_keeps_accounts get_app (accounts, none, ops) = refl

  pub new_rate_limit_store_ok :
      (driver : Driver) (s : Store)
      → (new_rate_limit_store floats
          (get_account_portal_app s)
          (get_month_to_moment_usage driver free_monthly_relays)).0
        ≡ ok (initially_limited floats driver s)
  unfolding new_rate_limit_store
  new_rate_limit_store_ok driver s = ap ok (
      initial_check_keeps_accounts (get_account_portal_app s) (
        update_rate_limited_accounts_map floats (get_account_portal_app s)
          (get_month_to_moment_usage driver free_monthly_relays) []))

  pub new_portal_app_store_ok :
      (answer : Fetched) (store : Store)
      → (new_portal_app_store floats answer).0 ≡ ok store
      → (portal_apps : GoMap PortalApp) × (answer ≡ ok portal_apps)
        × (store ≡ record {
          portal_apps = portal_apps;
          account_portal_apps = set_portal_apps_by_account_id portal_apps [];
        })
  unfolding new_portal_app_store initialize_store set_store_data
  new_portal_app_store_ok (err message) store h = cc h
  new_portal_app_store_ok (ok apps) store h = (apps, refl, cc h)

  pub new_portal_app_store_of :
      (answer : Fetched) (portal_apps : GoMap PortalApp)
      → answer ≡ ok portal_apps
      → (ops : List (MetricOp floats.Float)) × (new_portal_app_store floats answer ≡ (
        ok (record {
          portal_apps = portal_apps;
          account_portal_apps = set_portal_apps_by_account_id portal_apps [];
        }),
        ops,
      ))
  unfolding new_portal_app_store initialize_store set_store_data
  new_portal_app_store_of answer portal_apps h =
      ((new_portal_app_store floats (ok portal_apps)).1, rw h refl)
