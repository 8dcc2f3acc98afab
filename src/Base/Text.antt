-- ===== src/Base/Text.antt =====
-- Go strings as the lists of their bytes, and what the program uses of package strings.
use Prim.Native.Char.{code}
use Prim.Native.Nat.{ℕ}
use Prim.Native.String.{String}
use mathlib.Core.Path.{◌≡◌, refl}
use mathlib.Core.Logic.{◌↔◌, ◌≢◌}
use mathlib.Core.Bool.{Bool, true, false, ◌&&◌}
use mathlib.Core.List.{List, [], ◌∷◌, ◌++◌}
use native.Mathlib.Omega.{arith}
use path_external_auth_serve.Base.Tests.{if◌then◌else◌, nat_eq, nat_eq_iff, Eq}
use path_external_auth_serve.Base.Lists.{length, drop, drop-append}

abbrev pub GoString : Type 0
GoString = List ℕ

-- The bytes of an ASCII literal.
unfoldable pub bytes : String → GoString
bytes String.[] = []
bytes (String.◌∷◌ letter text) = code letter ∷ bytes text

unfoldable pub string_eq : GoString → GoString → Bool
string_eq [] [] = true
string_eq (x ∷ s) (y ∷ t) = nat_eq x y && string_eq s t
string_eq _ _ = false

pub string_eq_iff : (s t : GoString) → (string_eq s t ≡ true) ↔ (s ≡ t)
unfolding string_eq
string_eq_iff [] [] = ground arith
string_eq_iff (x ∷ s) [] = ground arith
string_eq_iff [] (y ∷ t) = ground arith
string_eq_iff (x ∷ s) (y ∷ t) = ground (arith, string_eq_iff s t, nat_eq_iff x y)

pub string_eq_refl : (s : GoString) → string_eq s s ≡ true
string_eq_refl s = (string_eq_iff s s).1 refl

pub string_eq_ne : (s t : GoString) → s ≢ t → string_eq s t ≡ false
string_eq_ne s t h = ground (arith, string_eq_iff s t)

instance abbrev pub string_Eq : Eq GoString
string_Eq = record { equal = string_eq; equal_iff = string_eq_iff }

-- strings.HasPrefix(s, prefix)
unfoldable pub has_prefix : GoString → GoString → Bool
has_prefix s [] = true
has_prefix [] (p ∷ ps) = false
has_prefix (c ∷ s) (p ∷ ps) = nat_eq c p && has_prefix s ps

pub has_prefix_iff :
    (s p : GoString) → (has_prefix s p ≡ true) ↔ ((rest : GoString) × (s ≡ p ++ rest))
unfolding has_prefix
has_prefix_iff s [] = (λ _. (s, refl), λ _. refl)
has_prefix_iff [] (p ∷ ps) = (λ h. cc, λ h. cc (h.1))
has_prefix_iff (c ∷ s) (p ∷ ps) = (
  λ h. let (rest, e) = (has_prefix_iff s ps).0 (ground arith) in (rest, ground arith),
  λ h. ground (arith, (has_prefix_iff s ps).1 (h.0, ground (arith, h.1)), h.1),
)

-- strings.TrimPrefix(s, prefix)
unfoldable pub trim_prefix : GoString → GoString → GoString
trim_prefix s p = if has_prefix s p then drop (length p) s else s

pub trim_prefix-append : (p s : GoString) → trim_prefix (p ++ s) p ≡ s
unfolding trim_prefix
trim_prefix-append p s = rw ((has_prefix_iff (p ++ s) p).1 (s, refl)) (drop-append p s)

-- A character in front of the first part.
abbrev pub extend_head : ℕ → List GoString → List GoString
extend_head c [] = (c ∷ []) ∷ []
extend_head c (part ∷ parts) = (c ∷ part) ∷ parts

-- strings.Split(s, sep) for a separator of one byte
unfoldable pub split : GoString → ℕ → List GoString
split [] sep = [] ∷ []
split (c ∷ s) sep =
    let parts = split s sep in if nat_eq c sep then [] ∷ parts else extend_head c parts
