-- ===== src/Metrics/Gauge.antt =====
-- What the gauge store_size_total of metrics/auth_metrics.go shows after operations.
use path_external_auth_serve.Base.{
  GoString, bytes, string_eq, int_Eq, lookup, Bool, false, ◌&&◌, Option, none, some, List, [], ◌∷◌,
  ◌++◌, All, ◌≡◌, refl, if◌then◌else◌, ◌==◌, string_Eq,
}
use path_external_auth_serve.Metrics.{MetricOp, register, inc, observe, set, store_size_total}

abbrev pub has_type : GoString → Option GoString → Bool
has_type store_type none = false
has_type store_type (some label) = label == store_type

module _ {F : Type 0} where
  -- The size that an operation sets for a type of store.
  unfoldable pub size_set : GoString → MetricOp F → Option F
  unfolding lookup string_eq bytes
  size_set store_type (set v labels x) =
      if v.name == store_size_total.name && has_type store_type (lookup (bytes "store_type") labels)
      then some x
      else none
  size_set store_type (register v) = none
  size_set store_type (inc v labels) = none
  size_set store_type (observe v labels x) = none

  abbrev pub or_before : Option F → Option F → Option F
  or_before none before = before
  or_before (some x) before = some x

  -- What the gauge shows after the operations: the size that was set last.
  unfoldable pub shown : GoString → List (MetricOp F) → Option F → Option F
  unfolding size_set
  shown store_type [] before = before
  shown store_type (op ∷ ops) before =
      shown store_type ops (or_before (size_set store_type op) before)

  pub shown-append :
      (store_type : GoString) (ops later : List (MetricOp F)) (before : Option F)
      → shown store_type (ops ++ later) before
        ≡ shown store_type later (shown store_type ops before)
  unfolding shown
  shown-append store_type [] later before = refl
  shown-append store_type (op ∷ ops) later before = shown-append store_type ops later _

  -- Operations that set no size of this type.
  abbrev pub IsSilent : GoString → List (MetricOp F) → Type 0
  IsSilent store_type = All (λ op. size_set store_type op ≡ none)
