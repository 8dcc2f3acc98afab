-- ===== src/Grove/Connection/Parts.antt =====
-- The pieces of a pattern: a text spelled out, a class of bytes once or more, a piece that may be
-- left out, and how a piece and what follows it match.
use path_external_auth_serve.Base.{
  GoString, ℕ, nat_eq, nat_eq_iff, Bool, true, [], ◌∷◌, ◌++◌, ◌≡◌, ◌≢◌, ◌↔◌, ◌⊎◌, inl, inr, refl,
  sym, ap, ◌∙◌, subst, All,
}
use path_external_auth_serve.Base.Regex.{
  Regex, empty, byte, either, next, many, Many, no_part, a_part, Matches,
}

abbrev pub literal : GoString → Regex
literal [] = empty
literal (c ∷ s) = next (byte (nat_eq c)) (literal s)

abbrev pub plus : (ℕ → Bool) → Regex
plus p = next (byte p) (many (byte p))

abbrev pub optional : Regex → Regex
optional r = either r empty

pub literal_iff : (w s : GoString) → Matches (literal w) s ↔ (s ≡ w)
literal_iff [] s = (λ m. m, λ e. e)
literal_iff (c ∷ w) s = (
  λ m.
      let (u, v, e, (b, same, one), rest) = m in
      let split : s ≡ b ∷ v = e ∙ ap (λ x. x ++ v) one in
      cc (split, (nat_eq_iff c b).0 same, (literal_iff w v).0 rest),
  λ e. (c ∷ [], w, e, (c, (nat_eq_iff c c).1 refl, refl), (literal_iff w w).1 refl),
)

-- A text that is not empty, of bytes of a class.
abbrev pub IsSome : (ℕ → Bool) → GoString → Type 0
IsSome p s = (s ≢ []) × All (λ c. p c ≡ true) s

bytes_sound : (p : ℕ → Bool) {s : GoString} → Many (Matches (byte p)) s → All (λ c. p c ≡ true) s
bytes_sound p (no_part e) = subst (All (λ c. p c ≡ true)) (sym e) tt
bytes_sound p (a_part u v e (c, ok, one) rest) =
    subst (All (λ c. p c ≡ true)) (sym (e ∙ ap (λ x. x ++ v) one)) (ok, bytes_sound p rest)

bytes_complete : (p : ℕ → Bool) (s : GoString) → All (λ c. p c ≡ true) s → Many (Matches (byte p)) s
bytes_complete p [] a = no_part refl
bytes_complete p (c ∷ s) (ok, a) = a_part (c ∷ []) s refl (c, ok, refl) (bytes_complete p s a)

pub plus_sound : (p : ℕ → Bool) (s : GoString) → Matches (plus p) s → IsSome p s
plus_sound p s (u, v, e, (c, ok, one), rest) =
    let split : s ≡ c ∷ v = e ∙ ap (λ x. x ++ v) one in
    (
      λ nothing. cc (split, nothing),
      subst (All (λ c. p c ≡ true)) (sym split) (ok, bytes_sound p rest),
    )

pub plus_complete : (p : ℕ → Bool) (s : GoString) → IsSome p s → Matches (plus p) s
plus_complete p [] (some_byte, _) = absurd (some_byte refl)
plus_complete p (c ∷ s) (_, (ok, a)) = (c ∷ [], s, refl, (c, ok, refl), bytes_complete p s a)

-- `Matches` under a name of its own, from which the pattern can be read off.
pub record Fits (r : Regex) (s : GoString) : Type 0 where
  pub fits : Matches r s

pub continued : (u : GoString) {s t rest : GoString} → s ≡ u ++ t → t ≡ rest → s ≡ u ++ rest
continued u e f = e ∙ ap (λ x. u ++ x) f

pub cut_literal :
    (w : GoString) {r : Regex} {s : GoString}
    → Fits (next (literal w) r) s
    → (t : GoString) × (s ≡ w ++ t) × Fits r t
cut_literal w m =
    let (u, t, e, spelled, rest) = m.fits in
    (t, e ∙ ap (λ x. x ++ t) ((literal_iff w u).0 spelled), record { fits = rest })

pub then_literal :
    (w : GoString) {r : Regex} {t : GoString} → Fits r t → Fits (next (literal w) r) (w ++ t)
then_literal w {r} {t} m = record { fits = (w, t, refl, (literal_iff w w).1 refl, m.fits) }

pub cut_plus :
    (p : ℕ → Bool) {r : Regex} {s : GoString}
    → Fits (next (plus p) r) s
    → (u : GoString) × (t : GoString) × (s ≡ u ++ t) × IsSome p u × Fits r t
cut_plus p m =
    let (u, t, e, some_bytes, rest) = m.fits in
    (u, t, e, plus_sound p u some_bytes, record { fits = rest })

pub then_plus :
    (p : ℕ → Bool) {u : GoString} {r : Regex} {t : GoString}
    → IsSome p u
    → Fits r t
    → Fits (next (plus p) r) (u ++ t)
then_plus p {u} {r} {t} some_bytes m = record {
  fits = (u, t, refl, plus_complete p u some_bytes, m.fits);
}

optional_sound : (w s : GoString) → Matches (optional (literal w)) s → (s ≡ w) ⊎ (s ≡ [])
optional_sound w s (inl m) = inl ((literal_iff w s).0 m)
optional_sound w s (inr e) = inr e

optional_complete : (w s : GoString) → (s ≡ w) ⊎ (s ≡ []) → Matches (optional (literal w)) s
optional_complete w s (inl e) = inl ((literal_iff w s).1 e)
optional_complete w s (inr e) = inr e

pub cut_optional :
    (w : GoString) {r : Regex} {s : GoString}
    → Fits (next (optional (literal w)) r) s
    → (u : GoString) × (t : GoString) × (s ≡ u ++ t) × ((u ≡ w) ⊎ (u ≡ [])) × Fits r t
cut_optional w m =
    let (u, t, e, spelled, rest) = m.fits in
    (u, t, e, optional_sound w u spelled, record { fits = rest })

pub then_optional :
    (w : GoString) {u : GoString} {r : Regex} {t : GoString}
    → (u ≡ w) ⊎ (u ≡ [])
    → Fits r t
    → Fits (next (optional (literal w)) r) (u ++ t)
then_optional w {u} {r} {t} spelled m = record {
  fits = (u, t, refl, optional_complete w u spelled, m.fits);
}
