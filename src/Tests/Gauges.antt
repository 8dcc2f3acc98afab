-- ===== src/Tests/Gauges.antt =====
-- The sizes that the gauge shows after sample refreshes and updates.
use path_external_auth_serve.Base.{
  bytes, pos, ok, err, ℤ, none, some, List, [], ◌∷◌, ◌++◌, ◌≡◌, refl, length,
}
use path_external_auth_serve.Metrics.{
  MetricOp, portal_apps_store_type, accounts_store_type, rate_limited_accounts_store_type,
}
use path_external_auth_serve.Metrics.Gauge.{shown}
use path_external_auth_serve.Metrics.Sizes.{shown_sizes}
use path_external_auth_serve.Store.{
  Store, Fetched, empty_store, set_store_data, update_store_metrics, new_portal_app_store,
  refresh_loop,
}
use path_external_auth_serve.RateLimit.{
  AccountPortalAppStore, Usage, new_rate_limit_store, monitoring_loop,
}
use path_external_auth_serve.Tests.Samples.{floats, keyed_app, two_apps}

-- An outage, then a fetch with one app less.
abbrev fetches : List Fetched
fetches = err (bytes "timeout") ∷ ok ((bytes "app1", keyed_app) ∷ []) ∷ []

abbrev first_store : Store
first_store = (set_store_data (ok two_apps) empty_store).0

-- The first check fails, the next finds an account over its limit.
abbrev get_app : AccountPortalAppStore
get_app = λ a. some keyed_app

abbrev ticks : List (AccountPortalAppStore × Usage)
ticks = (get_app, ok ((bytes "acc1", pos 1_000_001) ∷ [])) ∷ []

abbrev first_ops : List (MetricOp ℤ)
first_ops = (new_rate_limit_store floats get_app (err (bytes "quota"))).1

made :
    new_portal_app_store floats (ok two_apps)
    ≡ (ok first_store, update_store_metrics floats first_store)
unfolding new_portal_app_store set_store_data
made = refl

checked : new_rate_limit_store floats get_app (err (bytes "quota")) ≡ (ok [], first_ops)
unfolding new_rate_limit_store
checked = refl

shown_sizes_example :
    ((shown portal_apps_store_type
          (update_store_metrics floats first_store ++ (refresh_loop floats fetches first_store).1)
          none
        ≡ some
            (floats.of_int (pos (length (refresh_loop floats fetches first_store).0.portal_apps))))
      × (shown accounts_store_type
            (update_store_metrics floats first_store ++ (refresh_loop floats fetches first_store).1)
            none
          ≡ some (
              floats.of_int
                (pos (length (refresh_loop floats fetches first_store).0.account_portal_apps)))))
    × (shown rate_limited_accounts_store_type
          (first_ops ++ (monitoring_loop floats ticks []).1)
          none
        ≡ some (floats.of_int (pos (length (monitoring_loop floats ticks []).0))))
shown_sizes_example =
    shown_sizes floats (ok two_apps) fetches first_store (update_store_metrics floats first_store)
      get_app (err (bytes "quota")) ticks [] first_ops made checked
