-- ===== src/RateLimit/Limits.antt =====
-- Which usage exceeds the limit of an account: getRateLimit and shouldLimitAccount of
-- ratelimit/ratelimit_store.go.
use path_external_auth_serve.Base.{
  bytes, ℤ, pos, ◌<ℤ◌, ◌≤ℤ◌, FitsSigned, some, true, ◌≡◌, ◌≢◌, ◌↔◌, inl, inr, arith, string_Eq,
  string_eq_iff, ◌==◌, Bool-cases, Option-cases,
}
use path_external_auth_serve.PortalApp.{PortalApp, RateLimit}
use path_external_auth_serve.Grove.{plan_free, plan_unlimited}
use path_external_auth_serve.RateLimit.{free_monthly_relays, get_rate_limit, should_limit_account}

-- The rule of the documentation: a free account is over its limit above a million relays, an
-- unlimited account above the limit that it was given, if it was given one.
pub data Exceeds (app : PortalApp) (usage : ℤ) : Type 0 where
  free :
      (limit : RateLimit)
      → app.rate_limit ≡ some limit
      → app.plan_type ≡ plan_free
      → free_monthly_relays <ℤ usage
      → Exceeds app usage
  custom :
      (limit : RateLimit)
      → app.rate_limit ≡ some limit
      → app.plan_type ≡ plan_unlimited
      → pos 0 <ℤ limit.monthly_user_limit
      → limit.monthly_user_limit <ℤ usage
      → Exceeds app usage

pub plans_differ : plan_free ≢ plan_unlimited
unfolding bytes
plans_differ h = cc h

Exceeds-of_should_limit :
    (app : PortalApp) (usage : ℤ)
    → should_limit_account (get_rate_limit app) usage ≡ true
    → Exceeds app usage
unfolding should_limit_account get_rate_limit
Exceeds-of_should_limit app usage h = elim (Option-cases app.rate_limit) [
  | inl e ↦ ground arith
  | inr (limit, e) ↦ elim (Bool-cases (app.plan_type == plan_free)) [
    | inl is_free ↦ free limit e ((string_eq_iff _ _).0 is_free) (ground arith)
    | inr not_free ↦ elim (Bool-cases (app.plan_type == plan_unlimited)) [
      | inl is_unlimited ↦
          custom limit e ((string_eq_iff _ _).0 is_unlimited) (ground arith) (ground arith)
      | inr other ↦ ground arith
    ]
  ]
]

should_limit_of_Exceeds :
    (app : PortalApp) (usage : ℤ)
    → Exceeds app usage
    → should_limit_account (get_rate_limit app) usage ≡ true
unfolding should_limit_account get_rate_limit
should_limit_of_Exceeds app usage (free limit e plan over) =
    ground (arith, string_eq_iff app.plan_type plan_free)
should_limit_of_Exceeds app usage (custom limit e plan set over) = ground (
  arith,
  plans_differ,
  string_eq_iff app.plan_type plan_free,
  string_eq_iff app.plan_type plan_unlimited,
)

-- The code limits an account exactly when its usage exceeds the documented limit of its plan.
pub should_limit_account_iff :
    (app : PortalApp) (usage : ℤ)
    → (should_limit_account (get_rate_limit app) usage ≡ true) ↔ Exceeds app usage
should_limit_account_iff app usage =
    (Exceeds-of_should_limit app usage, should_limit_of_Exceeds app usage)

-- An int32 limit gives an int32 rate limit that is not negative.
pub get_rate_limit_bounds :
    (app : PortalApp)
    → ((limit : RateLimit) → app.rate_limit ≡ some limit → FitsSigned 31 limit.monthly_user_limit)
    → (pos 0 ≤ℤ get_rate_limit app) × FitsSigned 31 (get_rate_limit app)
unfolding get_rate_limit
get_rate_limit_bounds app fits = elim (Option-cases app.rate_limit) [
  | inl e ↦ rw e (omega arith, record { below = omega arith; above = omega arith })
  | inr (limit, e) ↦ let bound = fits limit e in ground (arith, bound)
]
