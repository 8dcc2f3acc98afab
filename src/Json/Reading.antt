-- ===== src/Json/Reading.antt =====
-- What the reader makes of the strings that encoding/json writes. No code of its own.
use mathlib.Core.List.{append_assoc}
use path_external_auth_serve.Base.{
  GoString, bytes, ℕ, zero, suc, ◌≤◌, ◌<◌, ltb, nat_eq, Bool, true, false, some, [], ◌∷◌, ◌++◌,
  if◌then◌else◌, ◌≡◌, ◌⊎◌, refl, ap, sym, subst, ◌∙◌, arith, inl, inr, Bool-cases,
}
use path_external_auth_serve.Json.{
  Lead, alone, broken, followed, lead, goes_on, in_range, when, Pending, copying, skipping,
  append_string, escape_ascii, is_separator, separator_digit,
}
use path_external_auth_serve.Json.Reader.{plain, in_front, read_string, repaired}
use path_external_auth_serve.Json.Escapes.{
  read_string-escape_ascii, read_string_above, read_string_broken, read_string_separator,
}

-- The bytes that are pending are inside of letters.
abbrev IsInside : Pending → GoString → Type 0
IsInside (copying (suc n)) (c ∷ s) = (128 ≤ c) × IsInside (copying n) s
IsInside _ _ = Unit

goes_on-IsInside :
    (low high more : ℕ) (s : GoString)
    → 128 ≤ low
    → goes_on low high more s ≡ true
    → IsInside (copying (suc more)) s
goes_on-IsInside low high more [] h g = tt
goes_on-IsInside low high zero (c ∷ s) h g = (ground (arith, g), tt)
goes_on-IsInside low high (suc more) (c ∷ s) h g =
    (ground (arith, g), goes_on-IsInside 128 191 more s (omega arith) (ground (arith, g)))

when_followed :
    (low high n more c : ℕ) (s : GoString)
    → 128 ≤ c
    → 128 ≤ low
    → when (goes_on low high n s) (suc n) ≡ followed more
    → (128 ≤ c) × IsInside (copying more) s
when_followed low high n more c s big h e = elim (Bool-cases (goes_on low high n s)) [
  | inl goes ↦
      let same : suc n ≡ more = cc (rw goes at e) in
      (big, subst (λ m. IsInside (copying m) s) same (goes_on-IsInside low high n s h goes))
  | inr stops ↦ cc (rw stops at e)
]

in_turn :
    {A B : Type 0} (test : Bool) (x y : A) {z : A}
    → (test ≡ true → x ≡ z → B)
    → (test ≡ false → y ≡ z → B)
    → (if test then x else y) ≡ z
    → B
in_turn true x y f g h = f refl h
in_turn false x y f g h = g refl h

-- A letter of more than one byte starts at 0x80 or above, and its bytes are there.
lead-IsInside :
    (c : ℕ) (s : GoString) (more : ℕ)
    → lead c s ≡ followed more
    → (128 ≤ c) × IsInside (copying more) s
unfolding lead
lead-IsInside c s more =
    in_turn (ltb c 128) alone _ (λ _ e. cc e)
      (λ not_ascii.
        let big : 128 ≤ c = ground (arith, not_ascii) in
        in_turn (in_range 194 223 c) _ _ (λ _. when_followed 128 191 0 more c s big (omega arith))
          (λ _.
            in_turn (nat_eq c 224) _ _ (λ _. when_followed 160 191 1 more c s big (omega arith))
              (λ _.
                in_turn (nat_eq c 237) _ _ (λ _. when_followed 128 159 1 more c s big (omega arith))
                  (λ _.
                    in_turn (in_range 225 239 c) _ _
                      (λ _. when_followed 128 191 1 more c s big (omega arith))
                      (λ _.
                        in_turn (nat_eq c 240) _ _
                          (λ _. when_followed 144 191 2 more c s big (omega arith))
                          (λ _.
                            in_turn (nat_eq c 244) _ _
                              (λ _. when_followed 128 143 2 more c s big (omega arith))
                              (λ _.
                                in_turn (in_range 241 243 c) _ _
                                  (λ _. when_followed 128 191 2 more c s big (omega arith))
                                  (λ _ e. cc e))))))))

lead_below : (c : ℕ) (s : GoString) → lead c s ≡ alone → c < 128
unfolding lead
lead_below c s h = ground (arith, h)

lead_separator :
    (y : ℕ) (s : GoString) → in_range 168 169 y ≡ true → lead 226 (128 ∷ y ∷ s) ≡ followed 2
unfolding lead
lead_separator y s h = ground (arith, h)

followed_injective : {m n : ℕ} → followed m ≡ followed n → m ≡ n
followed_injective h = cc h

Lead-cases : (l : Lead) → (l ≡ alone) ⊎ ((l ≡ broken) ⊎ ((more : ℕ) × (l ≡ followed more)))
Lead-cases alone = inl refl
Lead-cases broken = inr (inl refl)
Lead-cases (followed more) = inr (inr (more, refl))

skipping_none : (s : GoString) → repaired (skipping 0) s ≡ repaired (copying 0) s
unfolding repaired
skipping_none [] = refl
skipping_none (c ∷ s) = refl

-- The rest of a written string is read back.
abbrev IsReadBack : GoString → GoString → Pending → Type 0
IsReadBack rest s pending =
    read_string plain (append_string pending s ++ b'"' ∷ rest) ≡ some (repaired pending s, rest)

module _ (rest : GoString) where
  separator_back :
      (c more : ℕ) (s : GoString)
      → is_separator c s ≡ true
      → lead c s ≡ followed more
      → IsReadBack rest s (skipping more)
      → read_string plain
          (bytes "\\u202" ++ (separator_digit s ∷ (append_string (skipping more) s ++ b'"' ∷ rest)))
        ≡ some (c ∷ repaired (copying more) s, rest)
  unfolding append_string repaired
  separator_back c more [] h e ih = cc h
  separator_back c more (x ∷ []) h e ih = cc h
  separator_back c more (x ∷ y ∷ s) h e ih =
      let first : c ≡ 226 = ground (arith, h) in
      let second : x ≡ 128 = ground (arith, h) in
      let third : in_range 168 169 y ≡ true = ground (arith, h) in
      let two : more ≡ 2 = followed_injective (
        sym e
        ∙ ap (λ z. lead z (x ∷ y ∷ s)) first
        ∙ ap (λ z. lead 226 (z ∷ y ∷ s)) second
        ∙ lead_separator y s third) in
      read_string_separator y _ third
      ∙ ap (in_front (226 ∷ 128 ∷ y ∷ [])) ih
      ∙ rw (two, first, second, skipping_none) refl

  fresh_back :
      (c : ℕ) (s : GoString)
      → ((pending : Pending) → IsInside pending s → IsReadBack rest s pending)
      → IsReadBack rest (c ∷ s) (copying 0)
  unfolding append_string repaired
  fresh_back c s ih = elim (Lead-cases (lead c s)) [
    | inl e ↦
        rw (e, append_string, repaired)
          (ap (read_string plain)
              (append_assoc (escape_ascii c) (append_string (copying 0) s) (b'"' ∷ rest))
            ∙ read_string-escape_ascii c _ (lead_below c s e)
            ∙ ap (in_front (c ∷ [])) (ih (copying 0) tt))
    | inr (inl e) ↦
        rw (e, append_string, repaired)
          (ap (read_string plain)
              (append_assoc (bytes "\\ufffd") (append_string (copying 0) s) (b'"' ∷ rest))
            ∙ read_string_broken _
            ∙ ap (in_front (239 ∷ 191 ∷ 189 ∷ [])) (ih (copying 0) tt))
    | inr (inr (more, e)) ↦ elim (Bool-cases (is_separator c s)) [
      | inl sep ↦
          rw (e, sep, append_string, repaired)
            (ap (read_string plain) (
                append_assoc (bytes "\\u202") (separator_digit s ∷ append_string (skipping more) s)
                  (b'"' ∷ rest))
              ∙ separator_back c more s sep e (ih (skipping more) tt))
      | inr other ↦
          rw (e, other, append_string, repaired)
            (let (big, inside) = lead-IsInside c s more e in
              read_string_above c _ big ∙ ap (in_front (c ∷ [])) (ih (copying more) inside))
    ]
  ]

  -- A string that was written is read back, with U+FFFD for each byte that starts no letter.
  pub read_string-append_string :
      (pending : Pending) (s : GoString) → IsInside pending s → IsReadBack rest s pending
  unfolding append_string repaired read_string
  read_string-append_string pending [] inside = refl
  read_string-append_string (copying (suc n)) (c ∷ s) inside =
      read_string_above c _ inside.0
      ∙ ap (in_front (c ∷ [])) (read_string-append_string (copying n) s inside.1)
  read_string-append_string (skipping (suc n)) (c ∷ s) inside =
      read_string-append_string (skipping n) s tt
  read_string-append_string (copying zero) (c ∷ s) inside =
      fresh_back c s (λ p i. read_string-append_string p s i)
  read_string-append_string (skipping zero) (c ∷ s) inside =
      fresh_back c s (λ p i. read_string-append_string p s i)
