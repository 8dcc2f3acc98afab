-- ===== src/System/Service.antt =====
-- What the server promises, without its maps: store/portal_app_store.go and
-- ratelimit/ratelimit_store.go behind the handler of auth/auth_handler.go, as main.go puts them
-- together, beside a service whose state is three functions. An operation is taken as a whole.
use mathlib.Core.Path.{fun_ext}
use path_external_auth_serve.Base.{
  ℤ, pos, ltb_ℤ, GoMap, lookup, HasDistinctKeys, ok, err, Run, Bool, false, ◌&&◌, ◌||◌, Option,
  none, some, List, [], ◌∷◌, All, Bool-cases, Option-cases, inl, inr, ◌≡◌, refl, ap, ◌∙◌, arith,
  ◌==◌, string_Eq, string_eq_iff,
}
use path_external_auth_serve.PortalApp.{PortalAppId, AccountId, PortalApp}
use path_external_auth_serve.Metrics.{Floats, MetricOp}
use path_external_auth_serve.Grove.{plan_free, plan_unlimited}
use path_external_auth_serve.Store.{
  Store, Fetched, get_portal_app, get_account_portal_app, set_store_data, refresh_store,
}
use path_external_auth_serve.Store.Accounts.{
  first_of_account, or_else, lookup-set_portal_apps_by_account_id,
}
use path_external_auth_serve.RateLimit.{
  Usage, RateLimitedAccounts, free_monthly_relays, is_account_rate_limited, get_rate_limit,
  should_limit_account, update_rate_limited_accounts_map,
}
use path_external_auth_serve.RateLimit.Limits.{plans_differ}
use path_external_auth_serve.RateLimit.Update.{verdict, is_account_rate_limited-update_eq}
use path_external_auth_serve.Auth.Messages.{CheckRequest, CheckResponse}
use path_external_auth_serve.Auth.Handler.{AuthHandler, check}
use path_external_auth_serve.Auth.Handler.ApiKey.{handler}

-- A fetch, or an answer of the warehouse, that has come.
pub data Event : Type 0 where
  refresh : Fetched → Event
  update : Usage → Event

-- An event, or a request that took this long.
pub data Operation (F : Type 0) : Type 0 where
  event : Event → Operation F
  request : F → CheckRequest → Operation F

abbrev pub Reply : Type 0 → Type 0
Reply F = Run (CheckResponse × List (MetricOp F))

-- An answer of the warehouse is a Go map.
abbrev pub IsGoMap : {F : Type 0} → Operation F → Type 0
IsGoMap (event (update (ok usages))) = HasDistinctKeys usages
IsGoMap _ = Unit

-- The promise.

pub record Service : Type 0 where
  pub find_app : PortalAppId → Option PortalApp
  pub app_of_account : AccountId → Option PortalApp
  pub is_limited : AccountId → Bool

-- An app with a limit is over it above a million relays on the free plan, and above its own limit,
-- if that is set, on the unlimited one.
abbrev is_over : PortalApp → ℤ → Bool
is_over app usage = elim app.rate_limit [
  | none ↦ false
  | some limit ↦
      (app.plan_type == plan_free && ltb_ℤ free_monthly_relays usage)
      || (app.plan_type == plan_unlimited
          && (ltb_ℤ (pos 0) limit.monthly_user_limit && ltb_ℤ limit.monthly_user_limit usage))
]

abbrev is_over_limit : Option PortalApp → Option ℤ → Bool
is_over_limit none usage = false
is_over_limit (some app) none = false
is_over_limit (some app) (some usage) = is_over app usage

abbrev pub promised_state : Event → Service → Service
promised_state (refresh (ok apps)) s = record s {
  find_app = λ id. lookup id apps;
  app_of_account = λ a. or_else (s.app_of_account a) (first_of_account a apps);
}
promised_state (update (ok usages)) s = record s {
  is_limited = λ a. is_over_limit (s.app_of_account a) (lookup a usages);
}
promised_state _ s = s

abbrev pub handler_of : Service → AuthHandler
handler_of s =
    handler (record { get_portal_app = s.find_app })
      (record { is_account_rate_limited = s.is_limited })

abbrev pub promised : {F : Type 0} → List (Operation F) → Service → List (Reply F)
promised [] s = []
promised (request elapsed req ∷ ops) s = check (handler_of s) elapsed req ∷ promised ops s
promised (event e ∷ ops) s = promised ops (promised_state e s)

-- The server.

pub record Serving : Type 0 where
  pub store : Store
  pub limited : RateLimitedAccounts

module _ (floats : Floats) where
  unfoldable pub refreshed : Fetched → Serving → Serving
  unfolding refresh_store
  refreshed fetched s = record s { store = (refresh_store floats fetched s.store).0 }

  unfoldable pub updated : Usage → Serving → Serving
  unfolding update_rate_limited_accounts_map
  updated usage s = record s {
    limited =
        (update_rate_limited_accounts_map floats (get_account_portal_app s.store) usage
          s.limited).0;
  }

  abbrev pub happen : Event → Serving → Serving
  happen (refresh fetched) s = refreshed fetched s
  happen (update usage) s = updated usage s

  abbrev pub view : Serving → Service
  view s = record {
    find_app = get_portal_app s.store;
    app_of_account = get_account_portal_app s.store;
    is_limited = is_account_rate_limited s.limited;
  }

  -- the replies to the requests, in their order
  unfoldable pub serve : List (Operation floats.Float) → Serving → List (Reply floats.Float)
  unfolding refreshed updated
  serve [] s = []
  serve (request elapsed req ∷ ops) s = check (handler_of (view s)) elapsed req ∷ serve ops s
  serve (event e ∷ ops) s = serve ops (happen e s)

should_limit_account-is_over :
    (app : PortalApp) (usage : ℤ)
    → should_limit_account (get_rate_limit app) usage ≡ is_over app usage
unfolding should_limit_account get_rate_limit
should_limit_account-is_over app usage = elim (Option-cases app.rate_limit) [
  | inl e ↦ rw e refl
  | inr (limit, e) ↦ elim (Bool-cases (app.plan_type == plan_free)) [
    | inl is_free ↦
        let apart = (string_eq_iff app.plan_type plan_unlimited).0 in
        let same = (string_eq_iff _ _).0 is_free in ground (arith, apart, same, plans_differ)
    | inr not_free ↦ elim (Bool-cases (app.plan_type == plan_unlimited)) [
      | inl is_unlimited ↦ ground arith
      | inr other ↦ ground arith
    ]
  ]
]

verdict-is_over_limit :
    (get_app : AccountId → Option PortalApp) (a : AccountId) (usage : Option ℤ)
    → verdict get_app a usage ≡ is_over_limit (get_app a) usage
verdict-is_over_limit get_app a none = elim (Option-cases (get_app a)) [
  | inl e ↦ rw e refl
  | inr (app, e) ↦ rw e refl
]
verdict-is_over_limit get_app a (some usage) = elim (Option-cases (get_app a)) [
  | inl e ↦ rw e refl
  | inr (app, e) ↦ rw e (should_limit_account-is_over app usage)
]

module _ (floats : Floats) where
  refreshed-promised_state :
      (fetched : Fetched) (s : Serving)
      → view floats (refreshed floats fetched s) ≡ promised_state (refresh fetched) (view floats s)
  unfolding refreshed refresh_store set_store_data get_portal_app get_account_portal_app
  refreshed-promised_state (err message) s = refl
  refreshed-promised_state (ok apps) s =
      ap (λ f. record (promised_state (refresh (ok apps)) (view floats s)) { app_of_account = f })
        (fun_ext (λ a. lookup-set_portal_apps_by_account_id a apps s.store.account_portal_apps))

  updated-promised_state :
      (usages : GoMap ℤ) (s : Serving)
      → HasDistinctKeys usages
      → view floats (updated floats (ok usages) s)
        ≡ promised_state (update (ok usages)) (view floats s)
  unfolding updated
  updated-promised_state usages s d =
      let app_of = get_account_portal_app s.store in
      ap (λ f. record (view floats s) { is_limited = f })
        (fun_ext (λ a.
          is_account_rate_limited-update_eq floats app_of a usages s.limited d
          ∙ verdict-is_over_limit app_of a (lookup a usages)))

  happen-promised_state :
      (e : Event) (s : Serving)
      → IsGoMap {F = floats.Float} (event e)
      → view floats (happen floats e s) ≡ promised_state e (view floats s)
  unfolding updated update_rate_limited_accounts_map
  happen-promised_state (refresh fetched) s d = refreshed-promised_state fetched s
  happen-promised_state (update (ok usages)) s d = updated-promised_state usages s d
  happen-promised_state (update (err message)) s d = refl

  -- The server answers every sequence of refreshes, updates and requests, failed refreshes and
  -- updates included, the way a service without maps does, in which the rule for the limits is
  -- written out, if the answers of the warehouse are Go maps.
  pub serve-promised :
      (ops : List (Operation floats.Float)) (s : Serving)
      → All IsGoMap ops
      → serve floats ops s ≡ promised ops (view floats s)
  unfolding serve
  serve-promised [] s all = refl
  serve-promised (request elapsed req ∷ ops) s (_, maps) =
      ap (◌∷◌ (check (handler_of (view floats s)) elapsed req)) (serve-promised ops s maps)
  serve-promised (event e ∷ ops) s (is_map, maps) =
      serve-promised ops (happen floats e s) maps
      ∙ ap (promised ops) (happen-promised_state e s is_map)
