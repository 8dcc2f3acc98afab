-- ===== src/System/Sequential.antt =====
-- The operations of store/portal_app_store.go and ratelimit/ratelimit_store.go as sequences of
-- steps, where nothing comes between.
use path_external_auth_serve.Base.{
  ℤ, GoMap, HasDistinctKeys, All, ok, none, some, [], ◌∷◌, ◌≡◌, refl,
}
use path_external_auth_serve.PortalApp.{AccountId, PortalApp}
use path_external_auth_serve.Metrics.{Floats}
use path_external_auth_serve.Store.{get_account_portal_app, set_store_data}
use path_external_auth_serve.RateLimit.{
  RateLimitedAccounts, update_accounts, update_rate_limited_accounts_map,
}
use path_external_auth_serve.System.{
  System, put_apps, put_accounts, begin_update, update_one, publish, Reaches, stay, then_step,
}
use path_external_auth_serve.System.Requests.{steps_then}

module _ (floats : Floats) (reported : AccountId → ℤ → Type 0) where
  -- A refresh that nothing interrupts leaves the store that setStoreData computes.
  set_store_data_as_steps :
      (s : System) (apps : GoMap PortalApp)
      → HasDistinctKeys apps
      → s.refreshing ≡ none
      → Reaches floats reported s
          (record s { store = (set_store_data (ok apps) s.store).0; refreshing = none })
  unfolding set_store_data
  set_store_data_as_steps s apps d idle =
      then_step (then_step (stay s) (put_apps s apps d idle)) (put_accounts _ apps refl)

  rounds :
      (s : System) (left : GoMap ℤ) (new : RateLimitedAccounts)
      → Reaches floats reported
          (record s { updating = some (record { left = left; new_accounts = new }) })
          (record s {
            limited = (update_accounts floats (get_account_portal_app s.store) left new).0;
            updating = none;
          })
  unfolding update_accounts
  rounds s [] new = then_step (stay _) (publish _ new refl)
  rounds s ((a, usage) ∷ left) new =
      steps_then floats reported (then_step (stay _) (update_one _ a usage left new refl))
        (rounds s left _)

  -- An update that nothing interrupts publishes the map that updateRateLimitedAccounts computes.
  pub update_rate_limited_accounts_as_steps :
      (s : System) (usages : GoMap ℤ)
      → All (λ entry. reported entry.0 entry.1) usages
      → s.updating ≡ none
      → Reaches floats reported s (record s {
        limited =
            (update_rate_limited_accounts_map floats
              (get_account_portal_app s.store)
              (ok usages)
              s.limited).0;
        updating = none;
      })
  unfolding update_rate_limited_accounts_map
  update_rate_limited_accounts_as_steps s usages rs idle =
      steps_then floats reported (then_step (stay s) (begin_update s usages rs idle))
        (rounds s usages [])
