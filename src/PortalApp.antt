-- ===== src/PortalApp.antt =====
-- The data of a portal app: store/portal_app.go. A `*PortalApp` is never written through after it
-- is made, so a pointer is modelled by what it points at, and a nil pointer by `none`.
use path_external_auth_serve.Base.{GoString, ℤ, Bool, Option}

abbrev pub PortalAppId : Type 0
PortalAppId = GoString

abbrev pub AccountId : Type 0
AccountId = GoString

abbrev pub PlanType : Type 0
PlanType = GoString

pub record Auth : Type 0 where
  pub api_key : GoString

-- The limit is an int32.
pub record RateLimit : Type 0 where
  pub monthly_user_limit : ℤ

pub record PortalApp : Type 0 where
  pub id : PortalAppId
  pub account_id : AccountId
  pub plan_type : PlanType
  pub auth : Option Auth
  pub rate_limit : Option RateLimit

pub record PortalAppUpdate : Type 0 where
  pub portal_app_id : PortalAppId
  pub portal_app : Option PortalApp
  pub delete : Bool
