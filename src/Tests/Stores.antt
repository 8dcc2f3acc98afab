-- ===== src/Tests/Stores.antt =====
-- The portal app store and the rows of Postgres at sample inputs.
use path_external_auth_serve.Base.{
  bytes, string_eq, lookup, insert, HasDistinctKeys, All, ok, err, GoMap, true, none, some, List,
  [], ◌∷◌, map, ◌≡◌, ◌↔◌, refl,
}
use path_external_auth_serve.PortalApp.{PortalApp}
use path_external_auth_serve.Grove.{SelectPortalAppsRow, Cursor, select_portal_apps}
use path_external_auth_serve.Grove.Conversion.{select_portal_apps_iff}
use path_external_auth_serve.Store.{
  Store, Fetched, empty_store, get_portal_app, get_account_portal_app, set_store_data,
  set_portal_apps_by_account_id, refresh_loop,
}
use path_external_auth_serve.Store.Accounts.{or_else}
use path_external_auth_serve.Store.Refresh.{
  IsValid, IsGoMap, empty_store-IsValid, set_store_data-IsValid, first_fetched,
  refresh_loop-IsValid, get_account_portal_app-refresh_loop,
}
use path_external_auth_serve.Tests.Samples.{floats, keyed_app, open_app, two_apps}

-- The account of the first app after a change of its plan.
abbrev changed_app : PortalApp
changed_app = record {
  id = bytes "app1";
  account_id = bytes "acc1";
  plan_type = bytes "PLAN_UNLIMITED";
  auth = none;
  rate_limit = none;
}

abbrev changed_apps : GoMap PortalApp
changed_apps = (bytes "app1", changed_app) ∷ []

two_apps-HasDistinctKeys : HasDistinctKeys two_apps
unfolding lookup bytes string_eq
two_apps-HasDistinctKeys = (refl, (refl, tt))

-- A failed refresh, and one with the changed plan.
abbrev ticks : List Fetched
ticks = err (bytes "timeout") ∷ ok changed_apps ∷ []

ticks_are_maps : All IsGoMap ticks
unfolding lookup
ticks_are_maps = (tt, ((refl, tt), tt))

-- The store after the first fetch.
abbrev started : Store
started = (set_store_data (ok two_apps) empty_store).0

started-IsValid : IsValid started
started-IsValid =
    set_store_data-IsValid (ok two_apps) empty_store two_apps-HasDistinctKeys empty_store-IsValid

started_account : get_account_portal_app started (bytes "acc1") ≡ some keyed_app
unfolding get_account_portal_app set_store_data set_portal_apps_by_account_id lookup insert bytes
    string_eq
started_account = refl

refresh_tests :
    (get_portal_app (refresh_loop floats ticks started).0 (bytes "app1") ≡ some changed_app)
    × (get_portal_app (refresh_loop floats ticks started).0 (bytes "app2") ≡ none)
    × (get_account_portal_app (refresh_loop floats ticks started).0 (bytes "acc2") ≡ some open_app)
unfolding get_portal_app get_account_portal_app set_store_data set_portal_apps_by_account_id
    refresh_loop lookup insert bytes string_eq
refresh_tests = (refl, refl, refl)

refresh_loop-IsValid_example : IsValid (refresh_loop floats ticks started).0
refresh_loop-IsValid_example =
    refresh_loop-IsValid floats ticks started ticks_are_maps started-IsValid

get_account_portal_app-refresh_loop_example :
    get_account_portal_app (refresh_loop floats ticks started).0 (bytes "acc1")
    ≡ or_else (get_account_portal_app started (bytes "acc1")) (first_fetched (bytes "acc1") ticks)
get_account_portal_app-refresh_loop_example =
    get_account_portal_app-refresh_loop floats ticks started (bytes "acc1")

abbrev row : SelectPortalAppsRow
row = record {
  id = bytes "app3";
  secret_key = some (bytes "k3y");
  secret_key_required = some true;
  account_id = some (bytes "acc3");
  plan = some (bytes "PLAN_FREE");
  monthly_user_limit = none;
}

abbrev cursor : Cursor
cursor = record { scans = ok row ∷ []; failure = none }

select_portal_apps_iff_example :
    (select_portal_apps (ok cursor) ≡ ok (row ∷ []))
    ↔ ((cursor.scans ≡ map ok (row ∷ [])) × (cursor.failure ≡ none))
select_portal_apps_iff_example = select_portal_apps_iff cursor (row ∷ [])
