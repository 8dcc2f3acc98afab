-- ===== src/RateLimit/Rows.antt =====
-- The limit that an account gets from its row of the database: postgres/grove/portal_app.go with
-- getRateLimit of ratelimit/ratelimit_store.go.
use path_external_auth_serve.Base.{
  ℤ, ◌≤ℤ◌, FitsSigned, Option, none, some, refl, subst, pos, ltb_ℤ, ◌≡◌, arith, ◌&&◌, ◌==◌,
  string_Eq, if◌then◌else◌,
}
use path_external_auth_serve.PortalApp.{PlanType}
use path_external_auth_serve.Grove.{
  SelectPortalAppsRow, text_or_zero, int_or_zero, app_of_row, get_rate_limit_details, plan_free,
  plan_unlimited, sqlc_portal_apps_to_portal_app_row, convert_to_portal_app,
}
use path_external_auth_serve.PortalApp.{RateLimit}
use path_external_auth_serve.RateLimit.Limits.{get_rate_limit_bounds}
use path_external_auth_serve.RateLimit.{free_monthly_relays, get_rate_limit}

-- The documented limit of a plan; 0 is no limit.
abbrev pub limit_of_plan : PlanType → ℤ → ℤ
limit_of_plan plan custom =
    if plan == plan_free
    then free_monthly_relays
    else if plan == plan_unlimited && ltb_ℤ (pos 0) custom
    then custom
    else pos 0

-- Whatever a row holds, NULLs included, its app gets the documented limit of its plan: the way
-- through the optional rate limit of the portal app loses nothing.
pub get_rate_limit-app_of_row :
    (row : SelectPortalAppsRow)
    → get_rate_limit (app_of_row row)
      ≡ limit_of_plan (text_or_zero row.plan) (int_or_zero row.monthly_user_limit)
unfolding get_rate_limit sqlc_portal_apps_to_portal_app_row convert_to_portal_app
get_rate_limit-app_of_row row = ground arith

column_fits :
    (column : Option ℤ)
    → ((z : ℤ) → column ≡ some z → FitsSigned 31 z)
    → FitsSigned 31 (int_or_zero column)
column_fits none fits = record { below = omega arith; above = omega arith }
column_fits (some z) fits = fits z refl

limit_of_row :
    (row : SelectPortalAppsRow) (limit : RateLimit)
    → (app_of_row row).rate_limit ≡ some limit
    → int_or_zero row.monthly_user_limit ≡ limit.monthly_user_limit
unfolding convert_to_portal_app sqlc_portal_apps_to_portal_app_row get_rate_limit_details
limit_of_row row limit set = ground (arith, set)

-- A column that is NULL or an integer of 32 bits gives its app a rate limit of 32 bits that is not
-- negative.
pub app_of_row_bounds :
    (row : SelectPortalAppsRow)
    → ((z : ℤ) → row.monthly_user_limit ≡ some z → FitsSigned 31 z)
    → (pos 0 ≤ℤ get_rate_limit (app_of_row row)) × FitsSigned 31 (get_rate_limit (app_of_row row))
app_of_row_bounds row fits = get_rate_limit_bounds (app_of_row row) (λ limit set.
    subst (FitsSigned 31) (limit_of_row row limit set) (column_fits row.monthly_user_limit fits))
