-- ===== src/Base/Maps.antt =====
-- Go maps with string keys: the list of the entries, in the order in which a `range` visits them.
-- Go leaves that order open, so what is proved for every list holds in every order.
use Prim.Native.Nat.{suc}
use mathlib.Core.Path.{◌≡◌, refl}
use mathlib.Core.Option.{Option, none, some}
use mathlib.Core.List.{List, [], ◌∷◌}
use native.Mathlib.Omega.{arith}
use path_external_auth_serve.Base.Tests.{if◌then◌else◌, ◌==◌}
use path_external_auth_serve.Base.Lists.{length}
use path_external_auth_serve.Base.Text.{GoString, string_eq_iff, string_Eq}

abbrev pub GoMap {ℓ} : Type ℓ → Type ℓ
GoMap V = List (GoString × V)

module _ {ℓ} {V : Type ℓ} where
  -- `v, ok := m[k]`
  unfoldable pub lookup : GoString → GoMap V → Option V
  lookup key [] = none
  lookup key ((other, value) ∷ m) = if other == key then some value else lookup key m

  -- `m[k] = v`
  unfoldable pub insert : GoString → V → GoMap V → GoMap V
  insert key value [] = (key, value) ∷ []
  insert key value ((other, old) ∷ m) =
      if other == key then (key, value) ∷ m else (other, old) ∷ insert key value m

  -- A map holds each key once.
  abbrev pub HasDistinctKeys : GoMap V → Type ℓ
  HasDistinctKeys [] = Unit
  HasDistinctKeys ((k, v) ∷ m) = (lookup k m ≡ none) × HasDistinctKeys m

  -- The same map, seen in two orders.
  abbrev pub SameEntries : GoMap V → GoMap V → Type ℓ
  SameEntries m n = (k : GoString) → lookup k m ≡ lookup k n

  pub lookup-insert :
      (key sought : GoString) (value : V) (m : GoMap V)
      → lookup sought (insert key value m) ≡ (if key == sought then some value else lookup sought m)
  unfolding lookup insert
  lookup-insert key sought value [] = refl
  lookup-insert key sought value ((other, old) ∷ m) = ground (
    arith,
    lookup-insert key sought value m,
    string_eq_iff other sought,
    string_eq_iff other key,
    string_eq_iff key sought,
  )

  pub insert-HasDistinctKeys :
      (k : GoString) (v : V) (m : GoMap V) → HasDistinctKeys m → HasDistinctKeys (insert k v m)
  unfolding lookup insert
  insert-HasDistinctKeys k v [] h = (refl, tt)
  insert-HasDistinctKeys k v ((j, w) ∷ m) (fresh, h) = ground (
    arith,
    string_eq_iff j k,
    string_eq_iff k j,
    lookup-insert k j v m,
    insert-HasDistinctKeys k v m h,
  )

  -- A new key adds an entry, a present one replaces its value.
  pub length-insert :
      (k : GoString) (v : V) (m : GoMap V)
      → length (insert k v m) ≡ (elim (lookup k m) [ none ↦ suc (length m) | some _ ↦ length m ])
  unfolding lookup insert
  length-insert k v [] = refl
  length-insert k v ((j, w) ∷ m) = ground (arith, length-insert k v m)
