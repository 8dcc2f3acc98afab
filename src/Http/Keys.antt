-- ===== src/Http/Keys.antt =====
-- Keys of headers: their canonical form, and a lookup that ignores case.
use path_external_auth_serve.Base.{
  GoString, ℕ, nat_eq, all, Bool, true, false, ◌≢◌, [], ◌∷◌, ◌≡◌, refl, arith, map, sym, ap, ◌∙◌,
  ◌↔◌, Bool-cases, inl, inr,
}
use path_external_auth_serve.Http.{
  is_upper, valid_header_field_byte, to_upper, to_lower, canonical, canonical_key,
}

-- The key with every letter in lower case: two keys that differ in case only have the same one.
unfoldable pub fold_case : GoString → GoString
fold_case = map to_lower

to_lower-to_upper : (c : ℕ) → to_lower (to_upper c) ≡ to_lower c
unfolding to_lower to_upper is_upper
to_lower-to_upper c = ground arith

to_upper-to_lower : (c : ℕ) → to_upper (to_lower c) ≡ to_upper c
unfolding to_lower to_upper is_upper
to_upper-to_lower c = ground arith

to_lower_idem : (c : ℕ) → to_lower (to_lower c) ≡ to_lower c
unfolding to_lower
to_lower_idem c = ground arith

dash-to_lower : (c : ℕ) → nat_eq (to_lower c) b'-' ≡ nat_eq c b'-'
unfolding to_lower
dash-to_lower c = ground arith

valid-to_lower : (c : ℕ) → valid_header_field_byte (to_lower c) ≡ valid_header_field_byte c
unfolding to_lower valid_header_field_byte
valid-to_lower c = ground arith

valid-to_upper : (c : ℕ) → valid_header_field_byte (to_upper c) ≡ valid_header_field_byte c
unfolding to_upper valid_header_field_byte
valid-to_upper c = ground arith

-- Letters of both cases get the same canonical key.
canonical-fold_case :
    (upper : Bool) (s : GoString) → canonical upper (fold_case s) ≡ canonical upper s
unfolding canonical fold_case
canonical-fold_case upper [] = refl
canonical-fold_case upper (c ∷ s) = ground (
  arith,
  dash-to_lower c,
  to_upper-to_lower c,
  to_lower_idem c,
  canonical-fold_case (nat_eq c b'-') s,
)

-- The canonical key spells the same letters.
fold_case-canonical : (upper : Bool) (s : GoString) → fold_case (canonical upper s) ≡ fold_case s
unfolding canonical fold_case
fold_case-canonical upper [] = refl
fold_case-canonical upper (c ∷ s) =
    ground (arith, to_lower-to_upper c, to_lower_idem c, fold_case-canonical (nat_eq c b'-') s)

abbrev pub IsToken : GoString → Type 0
IsToken s = all valid_header_field_byte s ≡ true

canonical_key_of_IsToken : (s : GoString) → IsToken s → canonical_key s ≡ canonical true s
unfolding canonical_key
canonical_key_of_IsToken s h = rw h

-- Two names of headers have one canonical key exactly when they differ in case at most.
pub canonical_key-eq_iff :
    (s t : GoString)
    → IsToken s
    → IsToken t
    → (canonical_key s ≡ canonical_key t) ↔ (fold_case s ≡ fold_case t)
canonical_key-eq_iff s t hs ht =
    rw (canonical_key_of_IsToken s hs, canonical_key_of_IsToken t ht)
      (
        λ e. sym (fold_case-canonical true s) ∙ ap fold_case e ∙ fold_case-canonical true t,
        λ e. sym (canonical-fold_case true s) ∙ ap (canonical true) e ∙ canonical-fold_case true t,
      )

all_valid-fold_case :
    (s : GoString) → all valid_header_field_byte (fold_case s) ≡ all valid_header_field_byte s
unfolding fold_case
all_valid-fold_case [] = refl
all_valid-fold_case (c ∷ s) = ground (arith, valid-to_lower c, all_valid-fold_case s)

all_valid-canonical :
    (upper : Bool) (s : GoString)
    → all valid_header_field_byte (canonical upper s) ≡ all valid_header_field_byte s
unfolding canonical
all_valid-canonical upper [] = refl
all_valid-canonical upper (c ∷ s) =
    ground (arith, valid-to_upper c, valid-to_lower c, all_valid-canonical (nat_eq c b'-') s)

-- A canonical key is its own canonical key.
pub canonical_key_idem : (s : GoString) → canonical_key (canonical_key s) ≡ canonical_key s
unfolding canonical_key
canonical_key_idem s = elim (Bool-cases (all valid_header_field_byte s)) [
  | inl token ↦
      rw (token, all_valid-canonical true s, token)
        (sym (canonical-fold_case true (canonical true s))
          ∙ ap (canonical true) (fold_case-canonical true s)
          ∙ canonical-fold_case true s)
  | inr other ↦ rw (other, other)
]

-- A key that is no token is no key of a token.
stray_key :
    (key name : GoString)
    → all valid_header_field_byte key ≡ false
    → IsToken name
    → (canonical_key key ≢ canonical_key name) × (key ≢ fold_case name)
unfolding canonical_key
stray_key key name stray token = (
  λ e.
      let same : key ≡ canonical true name = rw (stray, token) at e in
      cc (ap (all valid_header_field_byte) same, all_valid-canonical true name, stray, token),
  λ e. cc (ap (all valid_header_field_byte) e, all_valid-fold_case name, stray, token),
)

-- A key in lower case, token or not, has the canonical key of a token exactly when it is the token
-- in lower case.
pub canonical_key-eq_lower :
    (key name : GoString)
    → fold_case key ≡ key
    → IsToken name
    → (canonical_key key ≡ canonical_key name) ↔ (key ≡ fold_case name)
canonical_key-eq_lower key name lower t = elim (Bool-cases (all valid_header_field_byte key)) [
  | inl token ↦ (
    λ e. sym lower ∙ (canonical_key-eq_iff key name token t).0 e,
    λ e. (canonical_key-eq_iff key name token t).1 (lower ∙ e),
  )
  | inr stray ↦
      let (other_key, other) = stray_key key name stray t in
      (λ e. absurd (other_key e), λ e. absurd (other e))
]
