-- ===== src/Base/Regex.antt =====
-- What the program uses of package regexp: patterns over bytes, and whether a whole text matches.
use Prim.Native.Nat.{ℕ}
use mathlib.Core.Path.{◌≡◌, refl, sym, ap, subst, ◌∙◌}
use mathlib.Core.Logic.{◌↔◌, ◌⊎◌, inl, inr}
use mathlib.Core.Bool.{Bool, true, false, ◌&&◌, ◌||◌}
use mathlib.Core.List.{[], ◌∷◌, ◌++◌}
use native.Mathlib.Omega.{arith}
use path_external_auth_serve.Base.Tests.{if◌then◌else◌, Bool-cases}
use path_external_auth_serve.Base.Text.{GoString}

pub data Regex : Type 0 where
  never empty : Regex
  byte : (ℕ → Bool) → Regex
  either next : Regex → Regex → Regex
  many : Regex → Regex

-- A text made of parts of one kind.
pub data Many (P : GoString → Type 0) : GoString → Type 0 where
  no_part : {s : GoString} → s ≡ [] → Many P s
  a_part : {s : GoString} (u v : GoString) → s ≡ u ++ v → P u → Many P v → Many P s

-- Which texts a pattern stands for.
abbrev pub Matches : Regex → GoString → Type 0
Matches never s = ⊥
Matches empty s = s ≡ []
Matches (byte p) s = (c : ℕ) × (p c ≡ true) × (s ≡ c ∷ [])
Matches (either r t) s = Matches r s ⊎ Matches t s
Matches (next r t) s = (u : GoString) × (v : GoString) × (s ≡ u ++ v) × Matches r u × Matches t v
Matches (many r) s = Many (Matches r) s

unfoldable pub nullable : Regex → Bool
nullable never = false
nullable empty = true
nullable (byte p) = false
nullable (either r t) = nullable r || nullable t
nullable (next r t) = nullable r && nullable t
nullable (many r) = true

-- What is left to match after a byte.
unfoldable pub after : ℕ → Regex → Regex
unfolding nullable
after c never = never
after c empty = never
after c (byte p) = if p c then empty else never
after c (either r t) = either (after c r) (after c t)
after c (next r t) =
    let first = next (after c r) t in
    let second = after c t in if nullable r then either first second else first
after c (many r) = next (after c r) (many r)

-- the whole of the text, as between ^ and $
unfoldable pub matches : Regex → GoString → Bool
unfolding after
matches r [] = nullable r
matches r (c ∷ s) = matches (after c r) s

nullable_sound : (r : Regex) → nullable r ≡ true → Matches r []
unfolding nullable
nullable_sound never h = cc h
nullable_sound empty h = refl
nullable_sound (byte p) h = cc h
nullable_sound (either r t) h = elim (Bool-cases (nullable r)) [
  | inl holds ↦ inl (nullable_sound r holds)
  | inr fails ↦ inr (nullable_sound t (ground (arith, fails, h)))
]
nullable_sound (next r t) h =
    ([], [], refl, nullable_sound r (ground (arith, h)), nullable_sound t (ground (arith, h)))
nullable_sound (many r) h = no_part refl

nullable_complete : (r : Regex) → Matches r [] → nullable r ≡ true
unfolding nullable
nullable_complete never m = absurd m
nullable_complete empty m = refl
nullable_complete (byte p) (c, _, e) = cc e
nullable_complete (either r t) (inl m) = ground (arith, nullable_complete r m)
nullable_complete (either r t) (inr m) = ground (arith, nullable_complete t m)
nullable_complete (next r t) ([], v, e, m, n) =
    ground (arith, nullable_complete r m, nullable_complete t (subst (Matches t) (sym e) n))
nullable_complete (next r t) (b ∷ u, v, e, m, n) = cc e
nullable_complete (many r) m = refl

after_sound : (c : ℕ) (r : Regex) (s : GoString) → Matches (after c r) s → Matches r (c ∷ s)
unfolding after
after_sound c never s m = absurd m
after_sound c empty s m = absurd m
after_sound c (byte p) s m = elim (Bool-cases (p c)) [
  | inl holds ↦ (c, holds, ap (◌∷◌ c) (rw holds at m))
  | inr fails ↦ absurd (rw fails at m)
]
after_sound c (either r t) s (inl m) = inl (after_sound c r s m)
after_sound c (either r t) s (inr m) = inr (after_sound c t s m)
after_sound c (next r t) s m =
    let here : Matches (next (after c r) t) s → Matches (next r t) (c ∷ s) =
      λ n. (c ∷ n.0, n.1, ap (◌∷◌ c) n.2, after_sound c r n.0 n.3, n.4) in
    elim (Bool-cases (nullable r)) [
      | inl holds ↦ elim (rw holds at m) [
        | inl n ↦ here n
        | inr n ↦ ([], c ∷ s, refl, nullable_sound r holds, after_sound c t s n)
      ]
      | inr fails ↦ here (rw fails at m)
    ]
after_sound c (many r) s (u, v, e, m, n) = a_part (c ∷ u) v (ap (◌∷◌ c) e) (after_sound c r u m) n

-- The first part that is not empty takes the byte.
parts_complete :
    (c : ℕ) (r : Regex) {whole : GoString} (s : GoString)
    → ((t : GoString) → Matches r (c ∷ t) → Matches (after c r) t)
    → whole ≡ c ∷ s
    → Many (Matches r) whole
    → Matches (after c (many r)) s
unfolding after
parts_complete c r s first e (no_part nothing) = cc (e, nothing)
parts_complete c r s first e (a_part [] v split m n) = parts_complete c r s first (sym split ∙ e) n
parts_complete c r s first e (a_part (b ∷ u) v split m n) =
    let here : b ≡ c = cc (e, split) in
    let rest : s ≡ u ++ v = cc (e, split) in
    (u, v, rest, first u (subst (λ x. Matches r (x ∷ u)) here m), n)

after_complete : (c : ℕ) (r : Regex) (s : GoString) → Matches r (c ∷ s) → Matches (after c r) s
unfolding after
after_complete c never s m = absurd m
after_complete c empty s m = cc m
after_complete c (byte p) s (b, ok, e) =
    let here : p c ≡ true = cc (ok, e) in let rest : s ≡ [] = cc e in rw here rest
after_complete c (either r t) s (inl m) = inl (after_complete c r s m)
after_complete c (either r t) s (inr m) = inr (after_complete c t s m)
after_complete c (next r t) s ([], v, e, m, n) =
    let left : Matches (after c t) s = after_complete c t s (subst (Matches t) (sym e) n) in
    rw (nullable_complete r m) (inr left)
after_complete c (next r t) s (b ∷ u, v, e, m, n) =
    let here : b ≡ c = cc e in
    let rest : s ≡ u ++ v = cc e in
    let mine = after_complete c r u (subst (λ x. Matches r (x ∷ u)) here m) in
    let whole : Matches (next (after c r) t) s = (u, v, rest, mine, n) in
    elim (Bool-cases (nullable r)) [ inl holds ↦ rw holds (inl whole) | inr fails ↦ rw fails whole ]
after_complete c (many r) s m = parts_complete c r s (after_complete c r) refl m

-- The test decides whether a text is one that the pattern stands for.
pub matches_iff : (r : Regex) (s : GoString) → (matches r s ≡ true) ↔ Matches r s
unfolding matches
matches_iff r [] = (nullable_sound r, nullable_complete r)
matches_iff r (c ∷ s) = (
  λ h. after_sound c r s ((matches_iff (after c r) s).0 h),
  λ m. (matches_iff (after c r) s).1 (after_complete c r s m),
)
