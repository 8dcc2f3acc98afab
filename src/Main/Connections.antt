-- ===== src/Main/Connections.antt =====
-- The connections of main.go: what is deferred is run at every end.
use path_external_auth_serve.Base.{
  GoString, Result, ok, err, Option, none, some, List, [], ◌∷◌, ◌++◌, ◌≡◌, refl, ap, sym, inl, inr,
  ◌∙◌, Bool, true, false, if◌then◌else◌,
}
use path_external_auth_serve.Metrics.{Floats, MetricOp}
use path_external_auth_serve.Grove.{get_portal_apps}
use path_external_auth_serve.Grove.Driver.{
  PoolEvent, new_grove_postgres_driver, new_grove_postgres_driver_iff, refused-LeavesNoPool,
}
use path_external_auth_serve.Metrics.Server.{Server, serve_metrics}
use path_external_auth_serve.Env.{EnvVars, gather_env_vars}
use path_external_auth_serve.Dwh.{Driver, new_driver, get_month_to_moment_usage}
use path_external_auth_serve.Store.{Store, get_account_portal_app, new_portal_app_store}
use path_external_auth_serve.RateLimit.{
  RateLimitedAccounts, free_monthly_relays, new_rate_limit_store,
}
use path_external_auth_serve.Main.Effects.{
  Connection, postgres, warehouse, Event, reported, opened, closed, started, listening, serving,
  Outcome, closing,
}
use path_external_auth_serve.Main.{
  World, address, after_serve, after_listen, after_metrics, after_rate_limit_store,
  after_portal_app_store, after_warehouse, after_postgres, after_connecting, after_env, main,
}

abbrev same : Connection → Connection → Bool
same postgres postgres = true
same warehouse warehouse = true
same _ _ = false

abbrev without : Connection → List Connection → List Connection
without c [] = []
without c (d ∷ held) = if same c d then held else d ∷ without c held

-- The connections that are held after the events, the last opened first.
abbrev pub open_after : {F : Type 0} → List Connection → List (Event F) → List Connection
open_after held [] = held
open_after held (opened c ∷ events) = open_after (c ∷ held) events
open_after held (closed c ∷ events) = open_after (without c held) events
open_after held (_ ∷ events) = open_after held events

-- Whatever was held before is held after, and nothing more.
abbrev IsBalanced : {F : Type 0} → List (Event F) → Type 0
IsBalanced events = (held : List Connection) → open_after held events ≡ held

module _ {F : Type 0} where
  open_after-append :
      (held : List Connection) (first later : List (Event F))
      → open_after held (first ++ later) ≡ open_after (open_after held first) later
  open_after-append held [] later = refl
  open_after-append held (opened c ∷ first) later = open_after-append (c ∷ held) first later
  open_after-append held (closed c ∷ first) later = open_after-append (without c held) first later
  open_after-append held (reported ops ∷ first) later = open_after-append held first later
  open_after-append held (started g ∷ first) later = open_after-append held first later
  open_after-append held (listening a ∷ first) later = open_after-append held first later
  open_after-append held (serving s l ∷ first) later = open_after-append held first later

  -- What was opened before a `defer` is closed behind it.
  closing-open_after :
      (c : Connection) (rest : Outcome F (Unit {0})) (held : List Connection)
      → IsBalanced rest.trace
      → open_after (c ∷ held) (closing c rest).trace ≡ held
  closing-open_after postgres rest held b =
      open_after-append (postgres ∷ held) rest.trace (closed postgres ∷ [])
      ∙ ap (λ o. open_after {F = F} o (closed postgres ∷ [])) (b (postgres ∷ held))
  closing-open_after warehouse rest held b =
      open_after-append (warehouse ∷ held) rest.trace (closed warehouse ∷ [])
      ∙ ap (λ o. open_after {F = F} o (closed warehouse ∷ [])) (b (warehouse ∷ held))

module _ (floats : Floats) {Config Pool : Type 0} (w : World Config Pool) where
  after_serve-IsBalanced :
      (answer : Option GoString) → IsBalanced (after_serve floats w answer).trace
  unfolding after_serve
  after_serve-IsBalanced none held = refl
  after_serve-IsBalanced (some message) held = refl

  after_listen-IsBalanced :
      (env : EnvVars) (store : Store) (limited : RateLimitedAccounts) (answer : Option GoString)
      → IsBalanced (after_listen floats w env store limited answer).trace
  unfolding after_listen
  after_listen-IsBalanced env store limited (some message) held = refl
  after_listen-IsBalanced env store limited none held = after_serve-IsBalanced w.serve held

  after_metrics-IsBalanced :
      (env : EnvVars) (store : Store) (limited : RateLimitedAccounts)
      (answer : Server × Option GoString)
      → IsBalanced (after_metrics floats w env store limited answer).trace
  unfolding after_metrics
  after_metrics-IsBalanced env store limited (server, some message) held = refl
  after_metrics-IsBalanced env store limited (server, none) held =
      after_listen-IsBalanced env store limited (w.listen (address env.port)) held

  after_rate_limit_store-IsBalanced :
      (env : EnvVars) (store : Store)
      (answer : Result RateLimitedAccounts × List (MetricOp floats.Float))
      → IsBalanced (after_rate_limit_store floats w env store answer).trace
  unfolding after_rate_limit_store
  after_rate_limit_store-IsBalanced env store (err message, ops) held = refl
  after_rate_limit_store-IsBalanced env store (ok limited, ops) held =
      after_metrics-IsBalanced env store limited
        (serve_metrics (address env.metrics_port) env.image_tag) held

  after_portal_app_store-IsBalanced :
      (env : EnvVars) (driver : Driver) (answer : Result Store × List (MetricOp floats.Float))
      → IsBalanced (after_portal_app_store floats w env driver answer).trace
  unfolding after_portal_app_store
  after_portal_app_store-IsBalanced env driver (err message, ops) held = refl
  after_portal_app_store-IsBalanced env driver (ok store, ops) held =
      after_rate_limit_store-IsBalanced env store
        (new_rate_limit_store floats (get_account_portal_app store)
          (get_month_to_moment_usage driver free_monthly_relays))
        held

  after_warehouse-IsBalanced :
      (env : EnvVars) (pool : Pool) (answer : Result Driver)
      → IsBalanced (after_warehouse floats w env pool answer).trace
  unfolding after_warehouse
  after_warehouse-IsBalanced env pool (err message) held = refl
  after_warehouse-IsBalanced env pool (ok driver) held =
      closing-open_after warehouse
        (after_portal_app_store floats w env driver
          (new_portal_app_store floats (get_portal_apps (w.query pool))))
        held
        (after_portal_app_store-IsBalanced env driver
          (new_portal_app_store floats (get_portal_apps (w.query pool))))

  -- What NewGrovePostgresDriver left behind is closed: its pool, or none.
  after_connecting-IsBalanced :
      (env : EnvVars) (answer : Result Pool) (pools : List (PoolEvent Pool))
      → new_grove_postgres_driver w.pgxpool env.postgres_connection_string ≡ (answer, pools)
      → IsBalanced (after_connecting floats w env (answer, pools)).trace
  unfolding after_connecting after_postgres
  after_connecting-IsBalanced env (err message) pools h held =
      let left =
        refused-LeavesNoPool w.pgxpool env.postgres_connection_string message (ap (λ p. p.0) h) in
      elim left [
        | inl e ↦ rw (sym (ap (λ p. p.1) h) ∙ e) refl
        | inr (pool, e) ↦ rw (sym (ap (λ p. p.1) h) ∙ e) refl
      ]
  after_connecting-IsBalanced env (ok pool) pools h held =
      let made =
        ((new_grove_postgres_driver_iff w.pgxpool env.postgres_connection_string pool pools).0
          h).1 in
      let next = new_driver (w.new_client env.gcp_project_id) env.gcp_project_id in
      rw made (
        closing-open_after postgres (after_warehouse floats w env pool next) held
          (after_warehouse-IsBalanced env pool next))

  after_env-IsBalanced : (answer : Result EnvVars) → IsBalanced (after_env floats w answer).trace
  unfolding after_env
  after_env-IsBalanced (err message) held = refl
  after_env-IsBalanced (ok env) held = after_connecting-IsBalanced env _ _ refl held

  pub main-IsBalanced : open_after [] (main floats w).trace ≡ []
  unfolding main
  main-IsBalanced = after_env-IsBalanced (gather_env_vars w.runtime) []
