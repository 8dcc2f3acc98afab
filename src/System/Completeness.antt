-- ===== src/System/Completeness.antt =====
-- An update misses no account that is over its limit, whatever happens while it runs: main.go with
-- ratelimit/ratelimit_store.go and store/portal_app_store.go.
use path_external_auth_serve.Base.{
  ℤ, GoMap, lookup, true, some, [], ◌∷◌, ◌≡◌, ◌⊎◌, inl, inr, refl, arith, subst, string_Eq,
  string_eq_iff, ◌==◌, Bool-cases,
}
use path_external_auth_serve.PortalApp.{AccountId, PortalApp}
use path_external_auth_serve.Metrics.{Floats}
use path_external_auth_serve.Store.{get_account_portal_app}
use path_external_auth_serve.RateLimit.{
  RateLimitedAccounts, is_account_rate_limited, update_account,
}
use path_external_auth_serve.RateLimit.Limits.{Exceeds}
use path_external_auth_serve.RateLimit.Rounds.{update_account_keeps, update_account_limits}
use path_external_auth_serve.System.{
  System, Updating, Transition, put_apps, put_accounts, begin_update, update_one, publish, Reaches,
  stay, then_step,
}
use path_external_auth_serve.System.Accounts.{account_kept_by_steps}
use path_external_auth_serve.System.Progress.{Publishes, is_publish}

module _ (floats : Floats) (reported : AccountId → ℤ → Type 0) (a : AccountId) (app : PortalApp)
    (usage : ℤ) (over : Exceeds app usage) where
  -- The account is still to come, or is in the new map.
  abbrev IsPending : Updating → Type 0
  IsPending u = (lookup a u.left ≡ some usage) ⊎ (is_account_rate_limited u.new_accounts a ≡ true)

  abbrev IsUnderway : System → Type 0
  IsUnderway s = (u : Updating) × (s.updating ≡ some u) × IsPending u

  round-IsPending :
      (s : System) (b : AccountId) (other : ℤ) (left : GoMap ℤ) (new : RateLimitedAccounts)
      → get_account_portal_app s.store a ≡ some app
      → IsPending (record { left = (b, other) ∷ left; new_accounts = new })
      → IsPending (record {
        left = left;
        new_accounts = (update_account floats b (get_account_portal_app s.store b) other new).0;
      })
  unfolding lookup
  round-IsPending s b other left new known (inr there) =
      inr (update_account_keeps floats a b (get_account_portal_app s.store b) other new there)
  round-IsPending s b other left new known (inl left_for) = elim (Bool-cases (b == a)) [
    | inl same ↦
        let here : b ≡ a = (string_eq_iff b a).0 same in
        let mine : other ≡ usage = ground (arith, left_for, same) in
        inr (rw (here, mine, known) (update_account_limits floats a app usage new over))
    | inr differs ↦ inl (ground (arith, left_for, differs))
  ]

  step-IsUnderway :
      {s t : System} (step : Transition floats reported s t)
      → get_account_portal_app s.store a ≡ some app
      → IsUnderway s
      → IsUnderway t ⊎ (is_publish floats reported step ≡ true)
  step-IsUnderway (put_apps s apps d idle) known h = inl h
  step-IsUnderway (put_accounts s apps busy) known h = inl h
  step-IsUnderway (begin_update s usages rs idle) known (u, e, p) = cc (idle, e)
  step-IsUnderway (update_one s b other left new busy) known (u, e, p) =
      let same : u ≡ record { left = (b, other) ∷ left; new_accounts = new } = cc (busy, e) in
      inl (_, refl, round-IsPending s b other left new known (subst IsPending same p))
  step-IsUnderway (publish s new busy) known h = inr refl

  steps-IsUnderway :
      {s t : System} (path : Reaches floats reported s t)
      → get_account_portal_app s.store a ≡ some app
      → ¬ Publishes floats reported path
      → IsUnderway s
      → IsUnderway t
  steps-IsUnderway (stay s) known quiet h = h
  steps-IsUnderway (then_step path last) known quiet h =
      elim (step-IsUnderway last (account_kept_by_steps floats reported a app path known)
        (steps-IsUnderway path known (λ p. quiet (inl p)) h)) [
          | inl on ↦ on
          | inr now ↦ absurd (quiet (inr now))
        ]

  limited_when_published :
      {t v : System} (last : Transition floats reported t v)
      → is_publish floats reported last ≡ true
      → IsUnderway t
      → is_account_rate_limited v.limited a ≡ true
  unfolding lookup
  limited_when_published (put_apps s apps d idle) publishes h = cc publishes
  limited_when_published (put_accounts s apps busy) publishes h = cc publishes
  limited_when_published (begin_update s usages rs idle) publishes h = cc publishes
  limited_when_published (update_one s b other left new busy) publishes h = cc publishes
  limited_when_published (publish s new busy) publishes (u, e, p) =
      let same : u ≡ record { left = []; new_accounts = new } = cc (busy, e) in
      elim (subst IsPending same p) [ inl never ↦ cc never | inr there ↦ there ]

  -- Where an update is in progress, has an account still to visit with a usage above the documented
  -- limit of the app that the store knows for it, and runs on to the step that publishes its map:
  -- the account is rate limited then, whatever the other goroutines have done in between.
  pub update_limits_account :
      {s t v : System} (u : Updating) (path : Reaches floats reported s t)
      (last : Transition floats reported t v)
      → s.updating ≡ some u
      → lookup a u.left ≡ some usage
      → get_account_portal_app s.store a ≡ some app
      → ¬ Publishes floats reported path
      → is_publish floats reported last ≡ true
      → is_account_rate_limited v.limited a ≡ true
  update_limits_account u path last busy left_for known quiet publishes =
      limited_when_published last publishes
        (steps-IsUnderway path known quiet (u, busy, inl left_for))
