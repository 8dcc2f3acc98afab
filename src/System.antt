-- ===== src/System.antt =====
-- The running server: main.go's wiring of the two stores and the handler, and the interleavings of
-- the goroutines that refresh them. A step is what happens under one lock: setStoreData of
-- store/portal_app_store.go takes two, one for each map, and the loop of updateRateLimitedAccounts
-- of ratelimit/ratelimit_store.go takes the lock of the portal app store once for each account. A
-- Check call reads the portal app and then, maybe later, the rate limit. A fetch or a query that
-- fails changes no state, so it is no step. The mutexes are not part of the state: what is done under
-- one is one step, so whether a step may be blocked is not told.
pub mod Accounts
pub mod Limited
pub mod Progress
pub mod Completeness
pub mod Requests
pub mod Sequential
pub mod Service
use path_external_auth_serve.Base.{
  ℤ, GoMap, HasDistinctKeys, All, ok, Option, none, some, List, [], ◌∷◌, ◌≡◌,
}
use path_external_auth_serve.PortalApp.{AccountId, PortalApp}
use path_external_auth_serve.Metrics.{Floats}
use path_external_auth_serve.Store.{
  Store, empty_store, get_portal_app, get_account_portal_app, set_portal_apps_by_account_id,
  set_store_data,
}
use path_external_auth_serve.RateLimit.{
  RateLimitedAccounts, is_account_rate_limited, update_account,
}
use path_external_auth_serve.Auth.Authorizer.{authorizer_api_key}
use path_external_auth_serve.Auth.Handler.{AuthHandler, new_auth_handler}

-- What `updateRateLimitedAccounts` holds between two rounds of its loop: the accounts that are left,
-- and the new map.
pub record Updating : Type 0 where
  pub left : GoMap ℤ
  pub new_accounts : RateLimitedAccounts

pub record System : Type 0 where
  pub store : Store
  pub limited : RateLimitedAccounts
  -- the portal apps that `setStoreData` has put in, before it does so for their accounts
  pub refreshing : Option (GoMap PortalApp)
  pub updating : Option Updating

abbrev pub with_portal_apps : Store → GoMap PortalApp → Store
with_portal_apps s apps = record s { portal_apps = apps }

abbrev pub with_accounts : Store → GoMap PortalApp → Store
with_accounts s apps = record s {
  account_portal_apps = set_portal_apps_by_account_id apps s.account_portal_apps;
}

-- The handler of `main`, for a call that reads the portal app in one state and the rate limit in
-- another.
abbrev pub handler_at : System → System → AuthHandler
handler_at s t =
    new_auth_handler (record { get_portal_app = get_portal_app s.store })
      (record { is_account_rate_limited = is_account_rate_limited t.limited }) authorizer_api_key

-- The state in which `main` has made the portal app store, from the apps of the first fetch. The
-- refreshes of that store run from here on; the first check of the rate limits, in
-- NewRateLimitStore, is the first update.
unfoldable pub boot : GoMap PortalApp → System
unfolding set_store_data
boot apps = record {
  store = (set_store_data (ok apps) empty_store).0;
  limited = [];
  refreshing = none;
  updating = none;
}

module _ (floats : Floats) where
  -- The usages that the warehouse has answered are a parameter of what can happen.
  module _ (reported : AccountId → ℤ → Type 0) where
    pub data Transition : System → System → Type 0 where
      put_apps :
          (s : System) (apps : GoMap PortalApp)
          → HasDistinctKeys apps
          → s.refreshing ≡ none
          → Transition s
              (record s { store = with_portal_apps s.store apps; refreshing = some apps })
      put_accounts :
          (s : System) (apps : GoMap PortalApp)
          → s.refreshing ≡ some apps
          → Transition s (record s { store = with_accounts s.store apps; refreshing = none })
      begin_update :
          (s : System) (usages : GoMap ℤ)
          → All (λ entry. reported entry.0 entry.1) usages
          → s.updating ≡ none
          → Transition s
              (record s { updating = some (record { left = usages; new_accounts = [] }) })
      update_one :
          (s : System) (a : AccountId) (usage : ℤ) (left : GoMap ℤ) (new : RateLimitedAccounts)
          → s.updating ≡ some (record { left = (a, usage) ∷ left; new_accounts = new })
          → Transition s (record s {
            updating = some (record {
              left = left;
              new_accounts =
                  (update_account floats a (get_account_portal_app s.store a) usage new).0;
            });
          })
      publish :
          (s : System) (new : RateLimitedAccounts)
          → s.updating ≡ some (record { left = []; new_accounts = new })
          → Transition s (record s { limited = new; updating = none })

    pub data Reaches : System → System → Type 0 where
      stay : (s : System) → Reaches s s
      then_step : {s t u : System} → Reaches s t → Transition t u → Reaches s u
