-- ===== src/System/Progress.antt =====
-- Which runs of the server publish the map of an update: updateRateLimitedAccounts of
-- ratelimit/ratelimit_store.go between the steps of the other goroutines.
use path_external_auth_serve.Base.{ℤ, Bool, true, false, ◌≡◌, ◌⊎◌}
use path_external_auth_serve.PortalApp.{AccountId}
use path_external_auth_serve.Metrics.{Floats}
use path_external_auth_serve.System.{System, Transition, publish, Reaches, stay, then_step}

module _ (floats : Floats) (reported : AccountId → ℤ → Type 0) where
  abbrev pub is_publish : {s t : System} → Transition floats reported s t → Bool
  is_publish (publish s new busy) = true
  is_publish _ = false

  abbrev pub Publishes : {s t : System} → Reaches floats reported s t → Type 0
  Publishes (stay s) = ⊥
  Publishes (then_step path last) = Publishes path ⊎ (is_publish last ≡ true)
