-- ===== src/Store/Refresh.antt =====
-- Refreshing the portal app store: setStoreData, refreshStore and the background loop of
-- store/portal_app_store.go.
use path_external_auth_serve.Base.{
  GoMap, lookup, HasDistinctKeys, ok, err, Option, none, some, List, [], ◌∷◌, ◌≡◌, refl, All,
}
use path_external_auth_serve.PortalApp.{PortalAppId, AccountId, PortalApp}
use path_external_auth_serve.Metrics.{Floats}
use path_external_auth_serve.Store.{
  Store, Fetched, empty_store, get_portal_app, get_account_portal_app, set_store_data,
  refresh_store, refresh_loop,
}
use path_external_auth_serve.Store.Accounts.{
  first_of_account, or_else, lookup-set_portal_apps_by_account_id, first_of_account_keyed,
  first_of_account_exists, set_portal_apps_by_account_id-HasDistinctKeys,
}

pub record IsValid (s : Store) : Type 0 where
  pub distinct_apps : HasDistinctKeys s.portal_apps
  pub distinct_accounts : HasDistinctKeys s.account_portal_apps
  pub keyed :
      (a : AccountId) (app : PortalApp)
      → lookup a s.account_portal_apps ≡ some app
      → app.account_id ≡ a
  pub covered :
      (id : PortalAppId) (app : PortalApp)
      → lookup id s.portal_apps ≡ some app
      → (other : PortalApp) × (lookup app.account_id s.account_portal_apps ≡ some other)

-- A fetch that succeeds gives a Go map, which holds each key once.
abbrev pub IsGoMap : Fetched → Type 0
IsGoMap (ok apps) = HasDistinctKeys apps
IsGoMap (err _) = Unit

pub empty_store-IsValid : IsValid empty_store
unfolding lookup
empty_store-IsValid = record {
  distinct_apps = tt;
  distinct_accounts = tt;
  keyed = λ a app h. cc;
  covered = λ i app h. cc;
}

pub or_else-some :
    (o p : Option PortalApp) {app : PortalApp}
    → p ≡ some app
    → (q : PortalApp) × (or_else o p ≡ some q)
or_else-some (some q) p h = (q, refl)
or_else-some none p {app} h = (app, h)

or_else_cases :
    {P : PortalApp → Type 0} (o p : Option PortalApp)
    → ((x : PortalApp) → o ≡ some x → P x)
    → ((x : PortalApp) → p ≡ some x → P x)
    → (x : PortalApp) → or_else o p ≡ some x
    → P x
or_else_cases (some q) p f g x h = f x h
or_else_cases none p f g x h = g x h

pub set_store_data-IsValid :
    (fetched : Fetched) (s : Store)
    → IsGoMap fetched
    → IsValid s
    → IsValid (set_store_data fetched s).0
unfolding set_store_data
set_store_data-IsValid (err m) s g v = v
set_store_data-IsValid (ok apps) s g v = record {
  distinct_apps = g;
  distinct_accounts =
      set_portal_apps_by_account_id-HasDistinctKeys apps s.account_portal_apps v.distinct_accounts;
  keyed = λ a app h.
      or_else_cases {P = λ x. x.account_id ≡ a} _ _ (v.keyed a) (λ x. first_of_account_keyed a apps)
        app (rw lookup-set_portal_apps_by_account_id at h);
  covered = λ i app h.
      rw lookup-set_portal_apps_by_account_id
        (or_else-some _ _ (first_of_account_exists i apps h).1);
}

-- The maps of the last fetch that succeeded.
abbrev pub last_fetched : List Fetched → GoMap PortalApp → GoMap PortalApp
last_fetched [] apps = apps
last_fetched (ok fetched ∷ ticks) apps = last_fetched ticks fetched
last_fetched (err _ ∷ ticks) apps = last_fetched ticks apps

-- The app that the account had in the first successful fetch that has one.
abbrev pub first_fetched : AccountId → List Fetched → Option PortalApp
first_fetched a [] = none
first_fetched a (ok fetched ∷ ticks) = or_else (first_of_account a fetched) (first_fetched a ticks)
first_fetched a (err _ ∷ ticks) = first_fetched a ticks

or_else_assoc : (o p q : Option PortalApp) → or_else (or_else o p) q ≡ or_else o (or_else p q)
or_else_assoc (some x) p q = refl
or_else_assoc none p q = refl

or_else-none : (o : Option PortalApp) → or_else o none ≡ o
or_else-none (some x) = refl
or_else-none none = refl

module _ (floats : Floats) where
  refresh_store_state :
      (fetched : Fetched) (s : Store)
      → (refresh_store floats fetched s).0 ≡ (set_store_data fetched s).0
  unfolding refresh_store
  refresh_store_state (ok apps) s = refl
  refresh_store_state (err m) s = refl

  -- A store that is valid stays valid through any ticks, where a fetch that succeeds gives a Go map:
  -- the keys of both maps stay distinct, an account is kept under its own ID, and the account of
  -- every portal app has an entry.
  pub refresh_loop-IsValid :
      (ticks : List Fetched) (s : Store)
      → All IsGoMap ticks
      → IsValid s
      → IsValid (refresh_loop floats ticks s).0
  unfolding refresh_loop
  refresh_loop-IsValid [] s g v = v
  refresh_loop-IsValid (fetched ∷ ticks) s (g, gs) v =
      refresh_loop-IsValid ticks _ gs
        (rw refresh_store_state (set_store_data-IsValid fetched s g v))

  -- After any ticks a portal app is looked up in the answer of the last fetch that succeeded, or in
  -- the store as it was if none did: a failed refresh loses nothing.
  pub get_portal_app-refresh_loop :
      (ticks : List Fetched) (s : Store) (id : PortalAppId)
      → get_portal_app (refresh_loop floats ticks s).0 id
        ≡ lookup id (last_fetched ticks s.portal_apps)
  unfolding refresh_loop get_portal_app set_store_data
  get_portal_app-refresh_loop [] s id = refl
  get_portal_app-refresh_loop (ok apps ∷ ticks) s id = get_portal_app-refresh_loop ticks _ id
  get_portal_app-refresh_loop (err m ∷ ticks) s id = get_portal_app-refresh_loop ticks s id

  -- After any ticks an account has the app that it had before or, if it had none, its first app in
  -- the first successful fetch that has one.
  pub get_account_portal_app-refresh_loop :
      (ticks : List Fetched) (s : Store) (a : AccountId)
      → get_account_portal_app (refresh_loop floats ticks s).0 a
        ≡ or_else (get_account_portal_app s a) (first_fetched a ticks)
  unfolding refresh_loop get_account_portal_app set_store_data
  get_account_portal_app-refresh_loop [] s a = rw or_else-none
  get_account_portal_app-refresh_loop (ok apps ∷ ticks) s a =
      rw (get_account_portal_app-refresh_loop ticks _ a, lookup-set_portal_apps_by_account_id)
        (or_else_assoc (lookup a s.account_portal_apps) (first_of_account a apps)
          (first_fetched a ticks))
  get_account_portal_app-refresh_loop (err m ∷ ticks) s a =
      get_account_portal_app-refresh_loop ticks s a

  -- An account that has an app in the store keeps that very app through every later refresh,
  -- whatever plan, limit or deletion the fetches bring.
  account_portal_app_sticky :
      (ticks : List Fetched) (s : Store) (a : AccountId) (app : PortalApp)
      → get_account_portal_app s a ≡ some app
      → get_account_portal_app (refresh_loop floats ticks s).0 a ≡ some app
  account_portal_app_sticky ticks s a app h = rw (get_account_portal_app-refresh_loop ticks s a, h)
