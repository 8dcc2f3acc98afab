-- ===== src/Json/Escapes.antt =====
-- What the reader makes of each escape that encoding/json writes. No code of its own.
use path_external_auth_serve.Base.{
  GoString, bytes, ℕ, ◌+◌, ◌*◌, ◌-◌, ◌/◌, ◌%◌, ◌≤◌, ◌<◌, nat_eq, true, false, some, [], ◌∷◌, ◌++◌,
  ◌≡◌, ◌≢◌, refl, ap, ◌∙◌, arith, inl, inr, Bool-cases, nat_eq_iff,
}
use path_external_auth_serve.Json.{in_range, escape_ascii, hex_digit, short_escape, is_html_safe}
use path_external_auth_serve.Json.Reader.{
  letter, hex_value, unescaped, plain, in_front, read_string,
}

hex_value-hex_digit : (n : ℕ) → n < 16 → hex_value (hex_digit n) ≡ some n
hex_value-hex_digit n small = ground arith

unescaped-short_escape : (c : ℕ) → short_escape c ≢ 0 → unescaped (short_escape c) ≡ some c
unescaped-short_escape c h = ground arith

short_escape_plain : (c : ℕ) → nat_eq (short_escape c) b'u' ≡ false
short_escape_plain c = ground arith

-- The four digits of an escape below 0x100.
two_digits : (c : ℕ) → c < 128 → letter ((c / 16) * 16 + c % 16) ≡ c ∷ []
two_digits c small = ground arith

read_two :
    (d e : ℕ) (s : GoString)
    → d < 16
    → e < 16
    → read_string plain (bytes "\\u00" ++ hex_digit d ∷ hex_digit e ∷ s)
      ≡ in_front (letter (d * 16 + e)) (read_string plain s)
unfolding read_string bytes
read_two d e s small_d small_e =
    rw (hex_value-hex_digit d small_d, hex_value-hex_digit e small_e, read_string)
      (ap (λ v. in_front (letter (v * 16 + e)) (read_string plain s)) (omega arith))

read_short :
    (c : ℕ) (s : GoString)
    → short_escape c ≢ 0
    → read_string plain (b'\\' ∷ short_escape c ∷ s) ≡ in_front (c ∷ []) (read_string plain s)
unfolding read_string
read_short c s h = rw (short_escape_plain c, unescaped-short_escape c h) refl

-- An ASCII byte is read back from its escape.
pub read_string-escape_ascii :
    (c : ℕ) (s : GoString)
    → c < 128
    → read_string plain (escape_ascii c ++ s) ≡ in_front (c ∷ []) (read_string plain s)
unfolding escape_ascii read_string bytes
read_string-escape_ascii c s small = elim (Bool-cases (is_html_safe c)) [
  | inl safe ↦ rw safe (ground (arith, safe))
  | inr unsafe ↦ elim (Bool-cases (nat_eq (short_escape c) 0)) [
    | inl long ↦
        rw (unsafe, long)
          (read_two (c / 16) (c % 16) s (omega (arith, small)) (omega arith)
            ∙ ap (λ t. in_front t (read_string plain s)) (two_digits c small))
    | inr short ↦
        rw (unsafe, short) (read_short c s (λ e. cc ((nat_eq_iff (short_escape c) 0).1 e, short)))
  ]
]

-- A byte inside of a letter stands for itself.
pub read_string_above :
    (c : ℕ) (s : GoString)
    → 128 ≤ c
    → read_string plain (c ∷ s) ≡ in_front (c ∷ []) (read_string plain s)
unfolding read_string
read_string_above c s above = ground arith

pub read_string_broken :
    (s : GoString)
    → read_string plain (bytes "\\ufffd" ++ s)
      ≡ in_front (239 ∷ 191 ∷ 189 ∷ []) (read_string plain s)
unfolding read_string bytes
read_string_broken s = refl

letter_separator :
    (y : ℕ) → in_range 168 169 y ≡ true → letter (8224 + (y - 160)) ≡ 226 ∷ 128 ∷ y ∷ []
letter_separator y h = ground (arith, h)

pub read_string_separator :
    (y : ℕ) (s : GoString)
    → in_range 168 169 y ≡ true
    → read_string plain (bytes "\\u202" ++ hex_digit (y - 160) ∷ s)
      ≡ in_front (226 ∷ 128 ∷ y ∷ []) (read_string plain s)
unfolding read_string bytes
read_string_separator y s h =
    rw (hex_value-hex_digit (y - 160) (ground (arith, h)), read_string)
      (ap (λ t. in_front t (read_string plain s)) (letter_separator y h))
