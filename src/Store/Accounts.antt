-- ===== src/Store/Accounts.antt =====
-- The account map of the portal app store: setPortalAppsByAccountID in store/portal_app_store.go.
use path_external_auth_serve.Base.{
  GoMap, lookup, lookup-insert, HasDistinctKeys, insert-HasDistinctKeys, string_Eq, string_eq_iff,
  string_eq_refl, Option, none, some, [], ◌∷◌, ◌≡◌, arith, if◌then◌else◌, ◌==◌, Bool-cases, inl,
  inr,
}
use path_external_auth_serve.PortalApp.{PortalAppId, AccountId, PortalApp}
use path_external_auth_serve.Store.{set_if_absent, set_portal_apps_by_account_id}

-- The first app of the account, in the order of the iteration.
abbrev pub first_of_account : AccountId → GoMap PortalApp → Option PortalApp
first_of_account a [] = none
first_of_account a ((_, app) ∷ apps) =
    if app.account_id == a then some app else first_of_account a apps

abbrev pub or_else : Option PortalApp → Option PortalApp → Option PortalApp
or_else (some app) other = some app
or_else none other = other

lookup-set_if_absent :
    (a : AccountId) (app : PortalApp) (accounts : GoMap PortalApp)
    → lookup a (set_if_absent app accounts)
      ≡ or_else (lookup a accounts) (if app.account_id == a then some app else none)
unfolding set_if_absent
lookup-set_if_absent a app accounts =
    ground (arith, lookup-insert app.account_id a app accounts, string_eq_iff app.account_id a)

-- After the loop an account has the app that it had before or, if it had none, the first app of
-- the account in the order of the iteration.
pub lookup-set_portal_apps_by_account_id :
    (a : AccountId) (apps accounts : GoMap PortalApp)
    → lookup a (set_portal_apps_by_account_id apps accounts)
      ≡ or_else (lookup a accounts) (first_of_account a apps)
unfolding set_portal_apps_by_account_id
lookup-set_portal_apps_by_account_id a [] accounts = ground arith
lookup-set_portal_apps_by_account_id a ((i, app) ∷ apps) accounts = ground (
  arith,
  lookup-set_portal_apps_by_account_id a apps (set_if_absent app accounts),
  lookup-set_if_absent a app accounts,
)

-- What the account map finds under a key is an app of that account.
pub first_of_account_keyed :
    (a : AccountId) (apps : GoMap PortalApp) {app : PortalApp}
    → first_of_account a apps ≡ some app
    → app.account_id ≡ a
first_of_account_keyed a [] h = cc
first_of_account_keyed a ((i, other) ∷ apps) {app} h =
    ground (arith, first_of_account_keyed a apps {app = app}, string_eq_iff other.account_id a)

-- The account of an app that is in the map has a first app.
pub first_of_account_exists :
    (id : PortalAppId) (apps : GoMap PortalApp) {app : PortalApp}
    → lookup id apps ≡ some app
    → (first : PortalApp) × (first_of_account app.account_id apps ≡ some first)
unfolding lookup
first_of_account_exists id [] h = cc
first_of_account_exists id ((i, other) ∷ apps) {app} h =
    elim (Bool-cases (other.account_id == app.account_id)) [
      | inl same ↦ (other, rw same)
      | inr differs ↦
          let later : lookup id apps ≡ some app = ground (arith, string_eq_refl other.account_id) in
          rw differs (first_of_account_exists id apps (unfold lookup in later))
    ]

set_if_absent-HasDistinctKeys :
    (app : PortalApp) (accounts : GoMap PortalApp)
    → HasDistinctKeys accounts
    → HasDistinctKeys (set_if_absent app accounts)
unfolding set_if_absent
set_if_absent-HasDistinctKeys app accounts h =
    ground (arith, insert-HasDistinctKeys app.account_id app accounts h)

pub set_portal_apps_by_account_id-HasDistinctKeys :
    (apps accounts : GoMap PortalApp)
    → HasDistinctKeys accounts
    → HasDistinctKeys (set_portal_apps_by_account_id apps accounts)
unfolding set_portal_apps_by_account_id
set_portal_apps_by_account_id-HasDistinctKeys [] accounts h = h
set_portal_apps_by_account_id-HasDistinctKeys ((i, app) ∷ apps) accounts h =
    set_portal_apps_by_account_id-HasDistinctKeys apps (set_if_absent app accounts)
      (set_if_absent-HasDistinctKeys app accounts h)
