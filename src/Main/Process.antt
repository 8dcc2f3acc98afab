-- ===== src/Main/Process.antt =====
-- The process of main.go beside the goroutines that it starts: a panic of a goroutine ends the process
-- at once, and no deferred call of `main` runs. Starting a ticker is all that can panic in the
-- goroutines of store/portal_app_store.go and ratelimit/ratelimit_store.go.
use path_external_auth_serve.Base.{
  GoString, ℕ, zero, suc, Run, returns, panics, Option, none, some, List, [], ◌∷◌, ◌++◌, All, ◌≡◌,
  refl, ◌-◌,
}
use path_external_auth_serve.Metrics.{Floats}
use path_external_auth_serve.Store.{empty_store, start_background_refresh}
use path_external_auth_serve.RateLimit.{start_rate_limit_monitoring}
use path_external_auth_serve.Main.Effects.{
  Goroutine, refreshing, monitoring, Event, started, Outcome,
}

abbrev panic_of : {A : Type 0} → Run A → Option GoString
panic_of (returns value) = none
panic_of (panics message) = some message

module _ (floats : Floats) where
  -- What the goroutine panics with when it is run, before its first tick.
  unfoldable pub first_panic : Goroutine → Option GoString
  unfolding start_background_refresh start_rate_limit_monitoring
  first_panic (refreshing interval) =
      panic_of (start_background_refresh floats interval [] empty_store)
  first_panic (monitoring interval) = panic_of (start_rate_limit_monitoring floats interval [] [])
  first_panic _ = none

  -- A schedule says how many more events `main` comes to before a goroutine is first run.
  abbrev pub Schedule : Type 0
  Schedule = Goroutine → ℕ

  -- The panics to come, each after so many more events.
  abbrev pub Pending : Type 0
  Pending = List (ℕ × GoString)

  abbrev pub arriving : ℕ → Option GoString → Pending
  arriving n none = []
  arriving n (some message) = (n, message) ∷ []

  abbrev pub brought : Schedule → Event floats.Float → Pending
  brought delay (started g) = arriving (delay g) (first_panic g)
  brought delay _ = []

  abbrev fires : Pending → Option GoString
  fires [] = none
  fires ((zero, message) ∷ pending) = some message
  fires ((suc n, message) ∷ pending) = fires pending

  abbrev tick : Pending → Pending
  tick [] = []
  tick ((n, message) ∷ pending) = (n - 1, message) ∷ tick pending

  -- No goroutine that is started panics.
  abbrev pub IsCalm : Schedule → List (Event floats.Float) → Type 0
  IsCalm delay = All (λ e. brought delay e ≡ [])

  module _ {A : Type 0} (delay : Schedule) where
    -- the events up to the first panic of a goroutine, or all of them
    unfoldable pub interrupted :
        Pending → List (Event floats.Float) → Run A → Outcome floats.Float A
    unfolding first_panic
    interrupted pending [] end = record { trace = []; end = end }
    interrupted pending (e ∷ events) end =
        let rest = interrupted (tick pending ++ brought delay e) events end in
        elim (fires pending) [
          | none ↦ record { trace = e ∷ rest.trace; end = rest.end }
          | some message ↦ record { trace = []; end = panics message }
        ]

    -- The process, for a run of `main`; where `main` ends first, so does the process.
    unfoldable pub process : Outcome floats.Float A → Outcome floats.Float A
    unfolding interrupted
    process run = interrupted [] run.trace run.end

    pub interrupted_calm :
        (events : List (Event floats.Float)) (end : Run A)
        → IsCalm delay events
        → interrupted [] events end ≡ record { trace = events; end = end }
    unfolding interrupted
    interrupted_calm [] end calm = refl
    interrupted_calm (e ∷ events) end (quiet, calm) =
        rw (quiet, interrupted_calm events end calm) refl

    pub process_calm : (run : Outcome floats.Float A) → IsCalm delay run.trace → process run ≡ run
    unfolding process
    process_calm run calm = interrupted_calm run.trace run.end calm
