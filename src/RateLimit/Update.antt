-- ===== src/RateLimit/Update.antt =====
-- What an update leaves in the map of rate limited accounts: updateRateLimitedAccounts of
-- ratelimit/ratelimit_store.go.
use path_external_auth_serve.Base.{
  ℤ, int_Eq, GoMap, lookup, HasDistinctKeys, SameEntries, ok, err, Bool, true, false, Option, none,
  some, List, [], ◌∷◌, ◌≡◌, ◌↔◌, refl, ap, arith, string_Eq, string_eq_iff, ◌==◌, Bool-cases,
  Option-cases, if◌then◌else◌, inl, inr, All,
}
use path_external_auth_serve.PortalApp.{AccountId, PortalApp}
use path_external_auth_serve.Metrics.{Floats}
use path_external_auth_serve.RateLimit.{
  AccountPortalAppStore, Usage, RateLimitedAccounts, is_account_rate_limited, get_rate_limit,
  should_limit_account, update_account, update_accounts, update_rate_limited_accounts_map,
  monitoring_loop,
}
use path_external_auth_serve.RateLimit.Limits.{Exceeds, should_limit_account_iff}
use path_external_auth_serve.RateLimit.Rounds.{limits, lookup-update_account}

module _ (get_app : AccountPortalAppStore) where
  -- What the map holds of an account after the loop, given the usage that was reported for it.
  abbrev entry_after : AccountId → Option ℤ → Option Bool → Option Bool
  entry_after a none before = before
  entry_after a (some usage) before = if limits (get_app a) usage then some true else before

  -- The answer that an update gives for an account, from the usage reported for it.
  abbrev pub verdict : AccountId → Option ℤ → Bool
  verdict a none = false
  verdict a (some usage) = limits (get_app a) usage

  verdict_iff :
      (a : AccountId) (reported : Option ℤ)
      → (verdict a reported ≡ true) ↔ (
          (usage : ℤ) × (app : PortalApp) × (reported ≡ some usage)
          × (get_app a ≡ some app)
          × Exceeds app usage)
  verdict_iff a none = (λ h. cc, λ h. cc (h.2))
  verdict_iff a (some usage) = elim (Option-cases (get_app a)) [
    | inl unknown ↦ (λ h. absurd (ground (arith, unknown)), λ h. cc (unknown, h.3))
    | inr (app, known) ↦ (
      λ h.
          let over : should_limit_account (get_rate_limit app) usage ≡ true =
            ground (arith, known, h) in
          (usage, app, refl, known, (should_limit_account_iff app usage).0 over),
      λ h.
          let over = (should_limit_account_iff h.1 h.0).1 h.4 in
          ground (arith, h.2, h.3, known, over),
    )
  ]

module _ (floats : Floats) where
  module _ (get_app : AccountPortalAppStore) where
    lookup-update_accounts :
        (a : AccountId) (usages : GoMap ℤ) (accounts : RateLimitedAccounts)
        → HasDistinctKeys usages
        → lookup a (update_accounts floats get_app usages accounts).0
          ≡ entry_after get_app a (lookup a usages) (lookup a accounts)
    unfolding update_accounts lookup
    lookup-update_accounts a [] accounts d = refl
    lookup-update_accounts a ((b, usage) ∷ usages) accounts (fresh, d) =
        let next = (update_account floats b (get_app b) usage accounts).0 in
        let ih = lookup-update_accounts a usages next d in
        let step = lookup-update_account floats a b (get_app b) usage accounts in
        elim (Bool-cases (b == a)) [
          | inl same ↦
              let e = (string_eq_iff b a).0 same in
              let gone : lookup a usages ≡ none = rw (← e) fresh in
              ground (arith, ih, step, gone, ap get_app e)
          | inr differs ↦ ground (arith, ih, step)
        ]

    pub is_account_rate_limited-update_eq :
        (a : AccountId) (usages : GoMap ℤ) (accounts : RateLimitedAccounts)
        → HasDistinctKeys usages
        → is_account_rate_limited
            (update_rate_limited_accounts_map floats get_app (ok usages) accounts).0
            a
          ≡ verdict get_app a (lookup a usages)
    unfolding update_rate_limited_accounts_map is_account_rate_limited lookup
    is_account_rate_limited-update_eq a usages accounts d =
        ground (arith, lookup-update_accounts a usages [] d)

    -- After an update that the warehouse answered with a Go map, an account is rate limited exactly when the
    -- warehouse reported a usage for it, the portal app store knows its app, and the usage exceeds
    -- the documented limit of that app's plan. What was in the map before plays no part.
    pub is_account_rate_limited-update :
        (a : AccountId) (usages : GoMap ℤ) (accounts : RateLimitedAccounts)
        → HasDistinctKeys usages
        → (is_account_rate_limited
              (update_rate_limited_accounts_map floats get_app (ok usages) accounts).0
              a
            ≡ true)
          ↔ ((usage : ℤ) × (app : PortalApp) × (lookup a usages ≡ some usage)
              × (get_app a ≡ some app)
              × Exceeds app usage)
    is_account_rate_limited-update a usages accounts d =
        rw (is_account_rate_limited-update_eq a usages accounts d)
          (verdict_iff get_app a (lookup a usages))

    -- Two usage maps with the same entries, visited in any order, limit the same accounts, whatever
    -- the store's map held before.
    update_order_independent :
        (a : AccountId) (usages usages' : GoMap ℤ) (accounts accounts' : RateLimitedAccounts)
        → HasDistinctKeys usages
        → HasDistinctKeys usages'
        → SameEntries usages usages'
        → is_account_rate_limited
            (update_rate_limited_accounts_map floats get_app (ok usages) accounts).0
            a
          ≡ is_account_rate_limited
              (update_rate_limited_accounts_map floats get_app (ok usages') accounts').0
              a
    update_order_independent a usages usages' accounts accounts' d d' same = rw (
      is_account_rate_limited-update_eq a usages accounts d,
      is_account_rate_limited-update_eq a usages' accounts' d',
      same a,
    )

-- The last tick whose usage the warehouse answered.
abbrev pub last_answered :
    List (AccountPortalAppStore × Usage) → Option (AccountPortalAppStore × GoMap ℤ)
last_answered [] = none
last_answered ((get_app, err _) ∷ ticks) = last_answered ticks
last_answered ((get_app, ok usages) ∷ ticks) = elim (last_answered ticks) [
  | none ↦ some (get_app, usages)
  | some later ↦ some later
]

abbrev pub IsGoMap : AccountPortalAppStore × Usage → Type 0
IsGoMap (get_app, err _) = Unit
IsGoMap (get_app, ok usages) = HasDistinctKeys usages

-- The answer after the ticks: that of the last one that was answered.
abbrev pub verdict_after : Option (AccountPortalAppStore × GoMap ℤ) → Bool → AccountId → Bool
verdict_after none before a = before
verdict_after (some (get_app, usages)) before a = verdict get_app a (lookup a usages)

module _ (floats : Floats) where
  -- After any ticks, whose answers are Go maps, an account is rate limited by the last usage that the warehouse answered and by
  -- the portal apps at that time; updates that failed change nothing.
  pub is_account_rate_limited-monitoring_loop :
      (a : AccountId) (ticks : List (AccountPortalAppStore × Usage))
      (accounts : RateLimitedAccounts)
      → All IsGoMap ticks
      → is_account_rate_limited (monitoring_loop floats ticks accounts).0 a
        ≡ verdict_after (last_answered ticks) (is_account_rate_limited accounts a) a
  unfolding monitoring_loop
  is_account_rate_limited-monitoring_loop a [] accounts d = refl
  is_account_rate_limited-monitoring_loop a ((get_app, err m) ∷ ticks) accounts (_, ds) =
      unfold update_rate_limited_accounts_map in
      is_account_rate_limited-monitoring_loop a ticks accounts ds
  is_account_rate_limited-monitoring_loop a ((get_app, ok usages) ∷ ticks) accounts (d, ds) =
      let next = (update_rate_limited_accounts_map floats get_app (ok usages) accounts).0 in
      ground (
        arith,
        is_account_rate_limited-monitoring_loop a ticks next ds,
        is_account_rate_limited-update_eq floats get_app a usages accounts d,
      )
