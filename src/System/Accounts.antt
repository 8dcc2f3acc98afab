-- ===== src/System/Accounts.antt =====
-- The account map of the portal app store while the server runs: main.go with
-- store/portal_app_store.go.
use path_external_auth_serve.Base.{ℤ, GoMap, lookup, none, some, ◌≡◌, ◌⊎◌, inl, inr, refl, arith}
use path_external_auth_serve.PortalApp.{PortalAppId, AccountId, PortalApp}
use path_external_auth_serve.Metrics.{Floats}
use path_external_auth_serve.Store.{
  Store, get_portal_app, get_account_portal_app, set_store_data, empty_store,
}
use path_external_auth_serve.Store.Accounts.{
  first_of_account_exists, lookup-set_portal_apps_by_account_id,
}
use path_external_auth_serve.Store.Refresh.{or_else-some}
use path_external_auth_serve.System.{
  System, boot, Transition, put_apps, put_accounts, begin_update, update_one, publish, Reaches,
  stay, then_step, with_accounts,
}

-- Between the two locks of a refresh the new portal apps are there and their accounts are not yet;
-- otherwise the account of every portal app is known.
abbrev pub IsCovered : System → Type 0
IsCovered s =
    (s.refreshing ≡ some s.store.portal_apps)
    ⊎ ((s.refreshing ≡ none)
        × ((id : PortalAppId) (app : PortalApp)
            → get_portal_app s.store id ≡ some app
            → (other : PortalApp) × (get_account_portal_app s.store app.account_id ≡ some other)))

kept_by_with_accounts :
    (s : Store) (apps : GoMap PortalApp) (a : AccountId) (app : PortalApp)
    → get_account_portal_app s a ≡ some app
    → get_account_portal_app (with_accounts s apps) a ≡ some app
unfolding get_account_portal_app
kept_by_with_accounts s apps a app h = rw (lookup-set_portal_apps_by_account_id, h) refl

known_after_with_accounts :
    (s : Store) (apps : GoMap PortalApp) (id : PortalAppId) (app : PortalApp)
    → lookup id apps ≡ some app
    → (other : PortalApp) × (get_account_portal_app (with_accounts s apps) app.account_id
        ≡ some other)
unfolding get_account_portal_app
known_after_with_accounts s apps id app h =
    rw lookup-set_portal_apps_by_account_id (or_else-some _ _ (first_of_account_exists id apps h).1)

module _ (floats : Floats) (reported : AccountId → ℤ → Type 0) where
  pub account_kept_by_step :
      {s t : System} (a : AccountId) (app : PortalApp)
      → Transition floats reported s t
      → get_account_portal_app s.store a ≡ some app
      → get_account_portal_app t.store a ≡ some app
  unfolding get_account_portal_app
  account_kept_by_step a app (put_apps s apps d idle) h = h
  account_kept_by_step a app (put_accounts s apps busy) h =
      kept_by_with_accounts s.store apps a app h
  account_kept_by_step a app (begin_update s usages r idle) h = h
  account_kept_by_step a app (update_one s b usage left new busy) h = h
  account_kept_by_step a app (publish s new busy) h = h

  -- Whatever happens, an account that is known stays known, with the same portal app.
  pub account_kept_by_steps :
      {s t : System} (a : AccountId) (app : PortalApp)
      → Reaches floats reported s t
      → get_account_portal_app s.store a ≡ some app
      → get_account_portal_app t.store a ≡ some app
  account_kept_by_steps a app (stay s) h = h
  account_kept_by_steps a app (then_step path last) h =
      account_kept_by_step a app last (account_kept_by_steps a app path h)

  step-IsCovered : {s t : System} → Transition floats reported s t → IsCovered s → IsCovered t
  unfolding get_portal_app
  step-IsCovered (put_apps s apps d idle) c = inl refl
  step-IsCovered (put_accounts s apps busy) c = elim c [
    | inl mid ↦ inr (
      refl,
      λ id app h.
          let same : s.store.portal_apps ≡ apps = cc (mid, busy) in
          known_after_with_accounts s.store apps id app (rw (← same) h),
    )
    | inr (idle, known) ↦ absurd (ground (arith, idle, busy))
  ]
  step-IsCovered (begin_update s usages r idle) c = c
  step-IsCovered (update_one s b usage left new busy) c = c
  step-IsCovered (publish s new busy) c = c

  steps-IsCovered_from : {s t : System} → Reaches floats reported s t → IsCovered s → IsCovered t
  steps-IsCovered_from (stay s) c = c
  steps-IsCovered_from (then_step path last) c = step-IsCovered last (steps-IsCovered_from path c)

  boot-IsCovered : (apps : GoMap PortalApp) → IsCovered (boot apps)
  unfolding boot set_store_data get_portal_app get_account_portal_app
  boot-IsCovered apps = inr (refl, λ id app h. known_after_with_accounts empty_store apps id app h)

  -- From the start on, whatever happens, outside of a refresh the account of every portal app of
  -- the store is known; in the middle of one the portal apps are those of the fetch.
  pub steps-IsCovered :
      {t : System} (apps : GoMap PortalApp) → Reaches floats reported (boot apps) t → IsCovered t
  steps-IsCovered apps path = steps-IsCovered_from path (boot-IsCovered apps)
