-- ===== src/Grove.antt =====
-- The Postgres data source: postgres/grove/portal_app.go, postgres/grove/driver.go and the generated
-- query of postgres/grove/sqlc. What Postgres and its client answer is an argument.
pub mod Conversion
pub mod Connection
pub mod Driver
pub mod Query
use path_external_auth_serve.Base.{
  GoString, bytes, ℤ, pos, ltb_ℤ, GoMap, insert, Result, ok, err, Bool, false, ◌||◌, Option, none,
  some, List, [], ◌∷◌, ◌++◌, if◌then◌else◌, ◌==◌, string_Eq,
}
use path_external_auth_serve.PortalApp.{PlanType, Auth, RateLimit, PortalApp}

abbrev pub plan_free : PlanType
plan_free = bytes "PLAN_FREE"

abbrev pub plan_unlimited : PlanType
plan_unlimited = bytes "PLAN_UNLIMITED"

-- A nullable column of pgtype: `none` is NULL, whose value field the client leaves at zero.
abbrev pub text_or_zero : Option GoString → GoString
text_or_zero none = []
text_or_zero (some s) = s

abbrev pub bool_or_zero : Option Bool → Bool
bool_or_zero none = false
bool_or_zero (some b) = b

abbrev pub int_or_zero : Option ℤ → ℤ
int_or_zero none = pos 0
int_or_zero (some z) = z

pub record SelectPortalAppsRow : Type 0 where
  pub id : GoString
  pub secret_key : Option GoString
  pub secret_key_required : Option Bool
  pub account_id : Option GoString
  pub plan : Option GoString
  pub monthly_user_limit : Option ℤ

pub record PortalApplicationRow : Type 0 where
  pub id : GoString
  pub account_id : GoString
  pub secret_key : GoString
  pub secret_key_required : Bool
  pub monthly_user_limit : ℤ
  pub plan : PlanType

unfoldable pub sqlc_portal_apps_to_portal_app_row : SelectPortalAppsRow → PortalApplicationRow
sqlc_portal_apps_to_portal_app_row r = record {
  id = r.id;
  account_id = text_or_zero r.account_id;
  secret_key = text_or_zero r.secret_key;
  secret_key_required = bool_or_zero r.secret_key_required;
  monthly_user_limit = int_or_zero r.monthly_user_limit;
  plan = text_or_zero r.plan;
}

unfoldable pub get_auth_details : PortalApplicationRow → Option Auth
get_auth_details r =
    if r.secret_key_required then some (record { api_key = r.secret_key }) else none

unfoldable pub get_rate_limit_details : PortalApplicationRow → Option RateLimit
get_rate_limit_details r =
    if r.plan == plan_free || ltb_ℤ (pos 0) r.monthly_user_limit
    then some (record { monthly_user_limit = r.monthly_user_limit })
    else none

unfoldable pub convert_to_portal_app : PortalApplicationRow → PortalApp
unfolding get_auth_details get_rate_limit_details
convert_to_portal_app r = record {
  id = r.id;
  account_id = r.account_id;
  plan_type = r.plan;
  auth = get_auth_details r;
  rate_limit = get_rate_limit_details r;
}

-- a row of the query as a portal app
abbrev pub app_of_row : SelectPortalAppsRow → PortalApp
app_of_row row = convert_to_portal_app (sqlc_portal_apps_to_portal_app_row row)

-- the loop of `sqlcPortalAppsToPortalApps`, over the map that it fills
unfoldable pub add_rows : List SelectPortalAppsRow → GoMap PortalApp → GoMap PortalApp
unfolding sqlc_portal_apps_to_portal_app_row convert_to_portal_app
add_rows [] portal_apps = portal_apps
add_rows (row ∷ rows) portal_apps =
    let portal_app_row = sqlc_portal_apps_to_portal_app_row row in
    add_rows rows (insert portal_app_row.id (convert_to_portal_app portal_app_row) portal_apps)

unfoldable pub sqlc_portal_apps_to_portal_apps : List SelectPortalAppsRow → GoMap PortalApp
unfolding add_rows
sqlc_portal_apps_to_portal_apps rows = add_rows rows []

-- What the cursor of a query does: for each row whether Scan succeeds, and the error of `rows.Err`.
pub record Cursor : Type 0 where
  pub scans : List (Result SelectPortalAppsRow)
  pub failure : Option GoString

-- the loop of `SelectPortalApps`; `items` are the rows so far
unfoldable pub scan_rows :
    List (Result SelectPortalAppsRow)
    → Option GoString
    → List SelectPortalAppsRow
    → Result (List SelectPortalAppsRow)
scan_rows [] none items = ok items
scan_rows [] (some message) items = err message
scan_rows (err message ∷ scans) failure items = err message
scan_rows (ok row ∷ scans) failure items = scan_rows scans failure (items ++ row ∷ [])

-- `q.db.Query` fails, or gives a cursor
unfoldable pub select_portal_apps : Result Cursor → Result (List SelectPortalAppsRow)
unfolding scan_rows
select_portal_apps (err message) = err message
select_portal_apps (ok cursor) = scan_rows cursor.scans cursor.failure []

abbrev pub apps_of_rows : Result (List SelectPortalAppsRow) → Result (GoMap PortalApp)
apps_of_rows (err message) = err (bytes "failed to fetch portal applications: " ++ message)
apps_of_rows (ok rows) = ok (sqlc_portal_apps_to_portal_apps rows)

-- `GetPortalApps` of the driver, over the answer of the database
unfoldable pub get_portal_apps : Result Cursor → Result (GoMap PortalApp)
unfolding select_portal_apps sqlc_portal_apps_to_portal_apps
get_portal_apps answer = apps_of_rows (select_portal_apps answer)
