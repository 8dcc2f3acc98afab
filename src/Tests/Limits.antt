-- ===== src/Tests/Limits.antt =====
-- Rate limits at sample inputs.
use path_external_auth_serve.Base.{
  FitsSigned, ◌≤ℤ◌, subst, arith, bytes, ℤ, pos, string_eq, lookup, insert, HasDistinctKeys, ok,
  err, GoMap, true, false, none, some, List, [], ◌∷◌, ◌≡◌, ◌↔◌, refl, string_Eq,
}
use path_external_auth_serve.PortalApp.{PortalApp}
use path_external_auth_serve.Grove.{SelectPortalAppsRow, app_of_row}
use path_external_auth_serve.RateLimit.{
  AccountPortalAppStore, Usage, is_account_rate_limited, get_rate_limit,
  update_rate_limited_accounts_map, monitoring_loop,
}
use path_external_auth_serve.RateLimit.Limits.{Exceeds}
use path_external_auth_serve.RateLimit.Rows.{app_of_row_bounds}
use path_external_auth_serve.RateLimit.Update.{
  verdict_after, last_answered, is_account_rate_limited-update,
  is_account_rate_limited-monitoring_loop,
}
use path_external_auth_serve.Tests.Samples.{floats, keyed_app, open_app}

abbrev get_app : AccountPortalAppStore
get_app = λ a. lookup a ((bytes "acc1", keyed_app) ∷ (bytes "acc2", open_app) ∷ [])

-- A free account just above a million, an unlimited one below its custom limit.
abbrev usages : GoMap ℤ
usages = (bytes "acc1", pos 1_000_001) ∷ (bytes "acc2", pos 4_000_000) ∷ []

usages-HasDistinctKeys : HasDistinctKeys usages
unfolding lookup bytes string_eq
usages-HasDistinctKeys = (refl, (refl, tt))

update_tests :
    (is_account_rate_limited
        (update_rate_limited_accounts_map floats get_app (ok usages) []).0
        (bytes "acc1")
      ≡ true)
    × (is_account_rate_limited
          (update_rate_limited_accounts_map floats get_app (ok usages) []).0
          (bytes "acc2")
        ≡ false)
unfolding is_account_rate_limited update_rate_limited_accounts_map lookup insert bytes string_eq
update_tests = (refl, refl)

is_account_rate_limited-update_example :
    (is_account_rate_limited
        (update_rate_limited_accounts_map floats get_app (ok usages) []).0
        (bytes "acc1")
      ≡ true)
    ↔ ((usage : ℤ) × (app : PortalApp) × (lookup (bytes "acc1") usages ≡ some usage)
        × (get_app (bytes "acc1") ≡ some app)
        × Exceeds app usage)
is_account_rate_limited-update_example =
    is_account_rate_limited-update floats get_app (bytes "acc1") usages [] usages-HasDistinctKeys

-- An answer, and a failure after it.
abbrev ticks : List (AccountPortalAppStore × Usage)
ticks = (get_app, ok usages) ∷ (get_app, err (bytes "timeout")) ∷ []

is_account_rate_limited-monitoring_loop_example :
    is_account_rate_limited (monitoring_loop floats ticks []).0 (bytes "acc1")
    ≡ verdict_after (last_answered ticks) (is_account_rate_limited [] (bytes "acc1")) (bytes "acc1")
is_account_rate_limited-monitoring_loop_example =
    is_account_rate_limited-monitoring_loop floats (bytes "acc1") ticks []
      (usages-HasDistinctKeys, (tt, tt))

abbrev row : SelectPortalAppsRow
row = record {
  id = bytes "app3";
  secret_key = none;
  secret_key_required = none;
  account_id = some (bytes "acc3");
  plan = some (bytes "PLAN_UNLIMITED");
  monthly_user_limit = some (pos 10_000_000);
}

row_fits : (z : ℤ) → row.monthly_user_limit ≡ some z → FitsSigned 31 z
row_fits z e =
    let same : pos 10_000_000 ≡ z = cc e in
    subst (FitsSigned 31) same (record { below = omega arith; above = omega arith })

app_of_row_bounds_example :
    (pos 0 ≤ℤ get_rate_limit (app_of_row row)) × FitsSigned 31 (get_rate_limit (app_of_row row))
app_of_row_bounds_example = app_of_row_bounds row row_fits
