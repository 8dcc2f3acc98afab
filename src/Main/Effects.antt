-- ===== src/Main/Effects.antt =====
-- What a run of main.go does to the outside world.
use path_external_auth_serve.Base.{GoString, ℤ, List, [], ◌∷◌, ◌++◌}
use path_external_auth_serve.Base.Runs.{Run, returns, panics}
use path_external_auth_serve.Metrics.{MetricOp}
use path_external_auth_serve.Metrics.Server.{Server}
use path_external_auth_serve.Store.{Store}
use path_external_auth_serve.RateLimit.{RateLimitedAccounts}

-- What is closed in the end.
pub data Connection : Type 0 where
  postgres warehouse : Connection

-- What `go` starts: a refresh at an interval, a server, or what waits for the end of the context to
-- stop the server of pprof; the context of `main` never ends.
pub data Goroutine : Type 0 where
  refreshing monitoring : ℤ → Goroutine
  listen_and_serve awaiting_done : Server → Goroutine

pub data Event (F : Type 0) : Type 0 where
  reported : List (MetricOp F) → Event F
  opened closed : Connection → Event F
  started : Goroutine → Event F
  listening : (address : GoString) → Event F
  -- the gRPC server takes requests, with these stores
  serving : Store → RateLimitedAccounts → Event F

pub record Outcome (F A : Type 0) : Type 0 where
  pub trace : List (Event F)
  pub end : Run A

module _ {F A B : Type 0} where
  abbrev pub continue : List (Event F) → Run A → (A → Outcome F B) → Outcome F B
  continue trace (panics message) next = record { trace = trace; end = panics message }
  continue trace (returns value) next = record {
    trace = trace ++ (next value).trace;
    end = (next value).end;
  }

  infixl 5 ◌>>=◌ ◌>>◌
  abbrev pub ◌>>=◌ : Outcome F A → (A → Outcome F B) → Outcome F B
  first >>= next = continue first.trace first.end next

  abbrev pub ◌>>◌ : Outcome F A → Outcome F B → Outcome F B
  first >> next = continue first.trace first.end (λ _. next)

module _ {F : Type 0} where
  abbrev pub emit : List (Event F) → Outcome F (Unit {0})
  emit events = record { trace = events; end = returns tt }

  abbrev pub panic : {A : Type 0} → GoString → Outcome F A
  panic message = record { trace = []; end = panics message }

  -- `defer c.Close()`, and what follows it
  abbrev pub closing : {A : Type 0} → Connection → Outcome F A → Outcome F A
  closing c rest = record { trace = rest.trace ++ closed c ∷ []; end = rest.end }
