-- ===== src/System/Limited.antt =====
-- Who is rate limited while the server runs: main.go with ratelimit/ratelimit_store.go and
-- store/portal_app_store.go.
use path_external_auth_serve.Base.{
  ℤ, GoMap, lookup, true, some, [], ◌≡◌, inl, inr, All, string_Eq, subst,
}
use path_external_auth_serve.PortalApp.{AccountId, PortalApp}
use path_external_auth_serve.Metrics.{Floats}
use path_external_auth_serve.Store.{get_account_portal_app}
use path_external_auth_serve.RateLimit.{
  RateLimitedAccounts, is_account_rate_limited, update_account,
}
use path_external_auth_serve.RateLimit.Limits.{Exceeds}
use path_external_auth_serve.RateLimit.Rounds.{update_account_adds}
use path_external_auth_serve.System.{
  System, Updating, boot, Transition, put_apps, put_accounts, begin_update, update_one, publish,
  Reaches, stay, then_step,
}
use path_external_auth_serve.System.Accounts.{account_kept_by_step}

module _ (reported : AccountId → ℤ → Type 0) where
  -- The account has an app whose limit is exceeded by a usage that the warehouse reported for it.
  abbrev pub IsOverLimit : System → AccountId → Type 0
  IsOverLimit s a =
      (usage : ℤ) × (app : PortalApp) × reported a usage
      × (get_account_portal_app s.store a ≡ some app)
      × Exceeds app usage

  abbrev pub AreOverLimit : System → RateLimitedAccounts → Type 0
  AreOverLimit s accounts =
      (a : AccountId) → is_account_rate_limited accounts a ≡ true → IsOverLimit s a

  -- What is so far in the new map, and what the loop has still to visit.
  abbrev pub IsBuilding : System → Updating → Type 0
  IsBuilding s u = AreOverLimit s u.new_accounts × All (λ entry. reported entry.0 entry.1) u.left

  pub record IsSound (s : System) : Type 0 where
    pub limited : AreOverLimit s s.limited
    pub building : (u : Updating) → s.updating ≡ some u → IsBuilding s u

  none_limited : (s : System) → AreOverLimit s []
  unfolding is_account_rate_limited lookup
  none_limited s a h = cc

  module _ (floats : Floats) where
    kept :
        {s t : System} (accounts : RateLimitedAccounts)
        → Transition floats reported s t
        → AreOverLimit s accounts
        → AreOverLimit t accounts
    kept accounts step over a h =
        let (usage, app, r, known, exceeds) = over a h in
        (usage, app, r, account_kept_by_step floats reported a app step known, exceeds)

    round-AreOverLimit :
        (s : System) (b : AccountId) (usage : ℤ) (new : RateLimitedAccounts)
        → reported b usage
        → AreOverLimit s new
        → AreOverLimit s (update_account floats b (get_account_portal_app s.store b) usage new).0
    round-AreOverLimit s b usage new r before a h =
        elim (update_account_adds floats a b (get_account_portal_app s.store b) usage new h) [
          | inl old ↦ before a old
          | inr (here, (app, known, exceeds)) ↦
              subst (IsOverLimit s) here (usage, app, r, known, exceeds)
        ]

    step-IsSound : {s t : System} → Transition floats reported s t → IsSound s → IsSound t
    step-IsSound (put_apps s apps d idle) v =
        let step : Transition floats reported s _ = put_apps s apps d idle in
        record {
          limited = kept s.limited step v.limited;
          building = λ u e. (kept u.new_accounts step (v.building u e).0, (v.building u e).1);
        }
    step-IsSound (put_accounts s apps busy) v =
        let step : Transition floats reported s _ = put_accounts s apps busy in
        record {
          limited = kept s.limited step v.limited;
          building = λ u e. (kept u.new_accounts step (v.building u e).0, (v.building u e).1);
        }
    step-IsSound (begin_update s usages rs idle) v = record {
      limited = v.limited;
      building = λ u e.
          let same : record { left = usages; new_accounts = [] } ≡ u = cc e in
          subst (IsBuilding s) same (none_limited s, rs);
    }
    step-IsSound (update_one s b usage left new busy) v = record {
      limited = v.limited;
      building = λ u e.
          let next = (update_account floats b (get_account_portal_app s.store b) usage new).0 in
          let same : record { left = left; new_accounts = next } ≡ u = cc e in
          let (before, (r, rs)) = v.building _ busy in
          subst (IsBuilding s) same (round-AreOverLimit s b usage new r before, rs);
    }
    step-IsSound (publish s new busy) v = record {
      limited = (v.building _ busy).0;
      building = λ u e. cc e;
    }

    steps-IsSound : {s t : System} → Reaches floats reported s t → IsSound s → IsSound t
    steps-IsSound (stay s) v = v
    steps-IsSound (then_step path last) v = step-IsSound last (steps-IsSound path v)

    boot-IsSound : (apps : GoMap PortalApp) → IsSound (boot apps)
    unfolding boot
    boot-IsSound apps = record { limited = none_limited (boot apps); building = λ u e. cc e }

    -- From the start on, whatever happens, every account that is rate limited has a portal app in
    -- the store whose documented limit is exceeded by a usage that the warehouse reported for it.
    pub limited_accounts_sound :
        {t : System} (apps : GoMap PortalApp) (a : AccountId)
        → Reaches floats reported (boot apps) t
        → is_account_rate_limited t.limited a ≡ true
        → IsOverLimit t a
    limited_accounts_sound apps a path h = (steps-IsSound path (boot-IsSound apps)).limited a h
