-- ===== src/Tests/Service.antt =====
-- A refresh, a request, an update and the request again, over a server that has nothing yet.
use path_external_auth_serve.Base.{
  bytes, string_eq, lookup, insert, All, ok, err, GoMap, ℤ, pos, true, false, List, [], ◌∷◌, ◌≡◌,
  refl,
}
use path_external_auth_serve.Store.{
  empty_store, set_portal_apps_by_account_id, get_account_portal_app, set_store_data, refresh_store,
}
use path_external_auth_serve.RateLimit.{is_account_rate_limited, update_rate_limited_accounts_map}
use path_external_auth_serve.System.Service.{
  refreshed, updated, Operation, event, request, refresh, update, IsGoMap, Serving, serve, promised,
  view, serve-promised, happen,
}
use path_external_auth_serve.Tests.Samples.{floats, by_path, two_apps}

abbrev new_server : Serving
new_server = record { store = empty_store; limited = [] }

abbrev usages : GoMap ℤ
usages = (bytes "acc1", pos 1_000_001) ∷ []

abbrev operations : List (Operation ℤ)
operations =
    event (refresh (ok two_apps))
    ∷ request (pos 3) by_path
    ∷ event (update (err (bytes "quota")))
    ∷ event (update (ok usages))
    ∷ request (pos 4) by_path
    ∷ []

operations_are_maps : All IsGoMap operations
unfolding lookup
operations_are_maps = (tt, (tt, (tt, ((refl, tt), (tt, tt)))))

serve-promised_example :
    serve floats operations new_server ≡ promised operations (view floats new_server)
serve-promised_example = serve-promised floats operations new_server operations_are_maps

-- The account is limited in between.
limited_in_between :
    ((view floats new_server).is_limited (bytes "acc1") ≡ false)
    × ((view floats (
            happen floats
              (update (ok usages))
              (happen floats (refresh (ok two_apps)) new_server))).is_limited
          (bytes "acc1")
        ≡ true)
unfolding refreshed updated set_portal_apps_by_account_id lookup insert string_eq bytes
    get_account_portal_app set_store_data refresh_store is_account_rate_limited
    update_rate_limited_accounts_map
limited_in_between = (refl, refl)
