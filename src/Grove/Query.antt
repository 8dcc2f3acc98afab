-- ===== src/Grove/Query.antt =====
-- The tables of the portal's database and what the query of postgres/grove/sqlc asks of them:
-- selectPortalApps in grove_queries.sql.generated.go, over the schema of grove_schema.sql. `none` is
-- NULL.
pub mod Joined
use path_external_auth_serve.Base.{
  GoString, ℤ, Bool, not, ◌&&◌, Option, none, some, List, map, matching, HaveDistinct, ◌==◌,
  string_Eq,
}
use path_external_auth_serve.Sql.{
  left_join, group_by, is_column, is_same_text, is_same_int, is_same_flag,
}
use path_external_auth_serve.Grove.{SelectPortalAppsRow}

-- The columns that the query reads.
pub record AccountsRow : Type 0 where
  pub id : GoString
  pub plan_type : Option GoString
  pub monthly_user_limit : Option ℤ

pub record PortalApplicationsRow : Type 0 where
  pub id : GoString
  pub account_id : Option GoString
  pub deleted : Bool

pub record PortalApplicationSettingsRow : Type 0 where
  pub application_id : GoString
  pub secret_key : Option GoString
  pub secret_key_required : Option Bool

pub record Database : Type 0 where
  pub accounts : List AccountsRow
  pub portal_applications : List PortalApplicationsRow
  pub portal_application_settings : List PortalApplicationSettingsRow

-- What the schema keeps up: the primary keys of the accounts and of the applications, and one row of
-- settings for an application.
pub record KeepsSchema (db : Database) : Type 0 where
  pub accounts_key : HaveDistinct (λ a. a.id) db.accounts
  pub applications_key : HaveDistinct (λ app. app.id) db.portal_applications
  pub one_settings : HaveDistinct (λ s. s.application_id) db.portal_application_settings

-- GROUP BY, which takes two NULLs as equal
abbrev pub is_same_group : SelectPortalAppsRow → SelectPortalAppsRow → Bool
is_same_group r s =
    r.id == s.id
    && (is_same_text r.secret_key s.secret_key
        && (is_same_flag r.secret_key_required s.secret_key_required
            && (is_same_text r.plan s.plan
                && is_same_int r.monthly_user_limit s.monthly_user_limit)))

abbrev secret_key_of : Option PortalApplicationSettingsRow → Option GoString
secret_key_of none = none
secret_key_of (some s) = s.secret_key

abbrev secret_key_required_of : Option PortalApplicationSettingsRow → Option Bool
secret_key_required_of none = none
secret_key_required_of (some s) = s.secret_key_required

abbrev pub plan_of : Option AccountsRow → Option GoString
plan_of none = none
plan_of (some a) = a.plan_type

abbrev pub limit_of : Option AccountsRow → Option ℤ
limit_of none = none
limit_of (some a) = a.monthly_user_limit

abbrev pub WithSettings : Type 0
WithSettings = PortalApplicationsRow × Option PortalApplicationSettingsRow

abbrev pub on_application : PortalApplicationsRow → PortalApplicationSettingsRow → Bool
on_application app settings = settings.application_id == app.id

abbrev pub on_account : WithSettings → AccountsRow → Bool
on_account (app, settings) account = is_column app.account_id account.id

-- the WHERE clause
abbrev pub is_in_use : WithSettings × Option AccountsRow → Bool
is_in_use ((app, settings), account) = not app.deleted

-- the columns of the SELECT, from an application, its settings and its account
abbrev pub selected : WithSettings × Option AccountsRow → SelectPortalAppsRow
selected ((app, settings), account) = record {
  id = app.id;
  secret_key = secret_key_of settings;
  secret_key_required = secret_key_required_of settings;
  account_id = app.account_id;
  plan = plan_of account;
  monthly_user_limit = limit_of account;
}

-- the rows in one of the orders in which Postgres may give them
unfoldable pub select_portal_apps_query : Database → List SelectPortalAppsRow
unfolding left_join group_by matching
select_portal_apps_query db =
    let with_settings =
      left_join on_application db.portal_applications db.portal_application_settings in
    let with_accounts = left_join on_account with_settings db.accounts in
    group_by is_same_group (map selected (matching is_in_use with_accounts))
