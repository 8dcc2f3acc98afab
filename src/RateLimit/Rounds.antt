-- ===== src/RateLimit/Rounds.antt =====
-- What one round of the loop of updateRateLimitedAccounts in ratelimit/ratelimit_store.go does.
use path_external_auth_serve.Base.{
  ℤ, int_Eq, lookup, lookup-insert, Bool, true, false, Option, none, some, ◌≡◌, ◌⊎◌, refl, arith,
  string_Eq, string_eq_refl, string_eq_iff, ◌==◌, Bool-cases, if◌then◌else◌, ◌&&◌, inl, inr,
}
use path_external_auth_serve.PortalApp.{AccountId, PortalApp}
use path_external_auth_serve.Metrics.{Floats}
use path_external_auth_serve.RateLimit.{
  RateLimitedAccounts, is_account_rate_limited, get_rate_limit, should_limit_account,
  update_account,
}
use path_external_auth_serve.RateLimit.Limits.{Exceeds, should_limit_account_iff}

-- Whether a round of the loop adds its account.
abbrev pub limits : Option PortalApp → ℤ → Bool
limits none usage = false
limits (some app) usage = should_limit_account (get_rate_limit app) usage

Exceeds-of_limits :
    (app : Option PortalApp) (usage : ℤ)
    → limits app usage ≡ true
    → (known : PortalApp) × (app ≡ some known) × Exceeds known usage
Exceeds-of_limits none usage h = cc
Exceeds-of_limits (some app) usage h = (app, refl, (should_limit_account_iff app usage).0 h)

module _ (floats : Floats) where
  pub lookup-update_account :
      (a account_id : AccountId) (app : Option PortalApp) (usage : ℤ)
      (accounts : RateLimitedAccounts)
      → lookup a (update_account floats account_id app usage accounts).0
        ≡ (if (account_id == a) && limits app usage then some true else lookup a accounts)
  unfolding update_account should_limit_account
  lookup-update_account a account_id none usage accounts = ground arith
  lookup-update_account a account_id (some app) usage accounts =
      ground (arith, lookup-insert account_id a true accounts)

  -- A round of the loop adds its own account at most, and only above the limit of its app.
  pub update_account_adds :
      (a account_id : AccountId) (app : Option PortalApp) (usage : ℤ)
      (accounts : RateLimitedAccounts)
      → is_account_rate_limited (update_account floats account_id app usage accounts).0 a ≡ true
      → (is_account_rate_limited accounts a ≡ true)
        ⊎ ((account_id ≡ a) × ((known : PortalApp) × (app ≡ some known) × Exceeds known usage))
  unfolding is_account_rate_limited
  update_account_adds a account_id app usage accounts h =
      let step = lookup-update_account a account_id app usage accounts in
      elim (Bool-cases ((account_id == a) && limits app usage)) [
        | inl both ↦ inr (
          (string_eq_iff account_id a).0 (ground (arith, both)),
          Exceeds-of_limits app usage (ground (arith, both)),
        )
        | inr neither ↦ inl (ground (arith, step, neither, h))
      ]

  -- A round of the loop takes no account out.
  pub update_account_keeps :
      (a account_id : AccountId) (app : Option PortalApp) (usage : ℤ)
      (accounts : RateLimitedAccounts)
      → is_account_rate_limited accounts a ≡ true
      → is_account_rate_limited (update_account floats account_id app usage accounts).0 a ≡ true
  unfolding is_account_rate_limited
  update_account_keeps a account_id app usage accounts h =
      ground (arith, lookup-update_account a account_id app usage accounts, h)

  -- It puts its own account in, above the limit of its app.
  pub update_account_limits :
      (a : AccountId) (app : PortalApp) (usage : ℤ) (accounts : RateLimitedAccounts)
      → Exceeds app usage
      → is_account_rate_limited (update_account floats a (some app) usage accounts).0 a ≡ true
  unfolding is_account_rate_limited
  update_account_limits a app usage accounts over = ground (
    arith,
    lookup-update_account a a (some app) usage accounts,
    (should_limit_account_iff app usage).1 over,
    string_eq_refl a,
  )
