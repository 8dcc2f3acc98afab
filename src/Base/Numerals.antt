-- ===== src/Base/Numerals.antt =====
-- The decimal print is read back by strconv.Atoi. No code of its own.
use Prim.Native.Nat.{ℕ, zero, suc, ◌+◌, ◌*◌, ◌/◌, ◌%◌, ◌^◌, ◌≤◌, ◌<◌}
use mathlib.Core.Path.{◌≡◌, refl, ap, sym, subst, ◌∙◌}
use mathlib.Core.Logic.{◌≢◌, inl, inr}
use mathlib.Core.Bool.{true, false}
use mathlib.Core.List.{[], ◌∷◌}
use native.Mathlib.Omega.{arith}
use path_external_auth_serve.Base.Tests.{nat_eq, nat_eq_iff, Bool-cases}
use path_external_auth_serve.Base.Text.{GoString}
use path_external_auth_serve.Base.Ints.{ℤ, pos, negsuc, FitsSigned}
use path_external_auth_serve.Base.Decimal.{digits, format_nat, format_int}
use path_external_auth_serve.Base.Atoi.{parsed, parse_uint, parse_digits, atoi}

-- One digit is read.
parse_uint_digit :
    (n d : ℕ) (s : GoString)
    → d < 10
    → n * 10 + d < 2 ^ 64
    → parse_uint n ((b'0' + d) ∷ s) ≡ parse_uint (n * 10 + d) s
unfolding parse_uint
parse_uint_digit n d s small fits = ground arith

-- Enough rounds print all the digits: the number is read back from in front of `out`.
parse_uint-digits :
    (fuel n : ℕ) (out : GoString)
    → n ≤ fuel
    → n < 2 ^ 64
    → parse_uint 0 (digits fuel n out) ≡ parse_uint n out
unfolding digits
parse_uint-digits zero n out enough fits = ground arith
parse_uint-digits (suc fuel) n out enough fits = elim (Bool-cases (nat_eq n 0)) [
  | inl e ↦ rw e (rw ((nat_eq_iff n 0).0 e) refl)
  | inr e ↦ rw e (
      let nonzero : n ≢ 0 = λ z. cc ((nat_eq_iff n 0).1 z) in
      let smaller : n / 10 ≤ fuel = omega (arith, nonzero) in
      let whole : n / 10 * 10 + n % 10 ≡ n = omega arith in
      parse_uint-digits fuel (n / 10) ((b'0' + n % 10) ∷ out) smaller (omega arith)
      ∙ parse_uint_digit (n / 10) (n % 10) out (omega arith) (rw whole fits)
      ∙ ap (λ m. parse_uint m out) whole)
]

-- The text starts with a digit.
abbrev StartsWithDigit : GoString → Type 0
StartsWithDigit [] = ⊥
StartsWithDigit (c ∷ s) = (b'0' ≤ c) × (c ≤ b'9')

digits-StartsWithDigit :
    (fuel n : ℕ) (out : GoString) → StartsWithDigit out → StartsWithDigit (digits fuel n out)
unfolding digits
digits-StartsWithDigit zero n out h = h
digits-StartsWithDigit (suc fuel) n out h = elim (Bool-cases (nat_eq n 0)) [
  | inl e ↦ rw e h
  | inr e ↦
      rw e (digits-StartsWithDigit fuel (n / 10) ((b'0' + n % 10) ∷ out) (omega arith, omega arith))
]

format_nat-suc : (n : ℕ) → format_nat (suc n) ≡ digits (suc n) (suc n) []
unfolding format_nat
format_nat-suc n = ground arith

digits_of_suc :
    (n : ℕ) → digits (suc n) (suc n) [] ≡ digits n (suc n / 10) ((b'0' + suc n % 10) ∷ [])
unfolding digits
digits_of_suc n = ground arith

format_nat-StartsWithDigit : (n : ℕ) → StartsWithDigit (format_nat n)
unfolding format_nat
format_nat-StartsWithDigit zero = (omega arith, omega arith)
format_nat-StartsWithDigit (suc n) =
    subst StartsWithDigit (sym (format_nat-suc n ∙ digits_of_suc n))
      (digits-StartsWithDigit n (suc n / 10) ((b'0' + suc n % 10) ∷ []) (omega arith, omega arith))

parse_uint-format_nat : (n : ℕ) → n < 2 ^ 64 → parse_uint 0 (format_nat n) ≡ parsed n
unfolding format_nat parse_uint
parse_uint-format_nat zero fits = refl
parse_uint-format_nat (suc n) fits =
    ap (parse_uint 0) (format_nat-suc n) ∙ parse_uint-digits (suc n) (suc n) [] (omega arith) fits

parse_digits_unsigned :
    (s : GoString) (n : ℕ)
    → StartsWithDigit s
    → parse_uint 0 s ≡ parsed n
    → n < 2 ^ 63
    → parse_digits false s ≡ parsed (pos n)
unfolding parse_digits
parse_digits_unsigned [] n h e fits = elim h [ ]
parse_digits_unsigned (c ∷ s) n h e fits = rw (e, parse_digits) (ground arith)

parse_digits_negative :
    (s : GoString) (n : ℕ)
    → StartsWithDigit s
    → parse_uint 0 s ≡ parsed (suc n)
    → suc n ≤ 2 ^ 63
    → parse_digits true s ≡ parsed (negsuc n)
unfolding parse_digits
parse_digits_negative [] n h e fits = elim h [ ]
parse_digits_negative (c ∷ s) n h e fits = rw (e, parse_digits) (ground arith)

-- A text that starts with a digit has no sign.
atoi_unsigned : (s : GoString) → StartsWithDigit s → atoi s ≡ parse_digits false s
unfolding atoi
atoi_unsigned [] h = elim h [ ]
atoi_unsigned (c ∷ s) h = ground arith

-- A decimal print within 64 bits is read back.
pub atoi-format_int : (z : ℤ) → FitsSigned 63 z → atoi (format_int z) ≡ parsed z
unfolding format_int atoi
atoi-format_int (pos n) fits =
    atoi_unsigned (format_nat n) (format_nat-StartsWithDigit n)
    ∙ parse_digits_unsigned (format_nat n) n (format_nat-StartsWithDigit n)
        (parse_uint-format_nat n (omega (arith, fits.below))) fits.below
atoi-format_int (negsuc n) fits =
    parse_digits_negative (format_nat (suc n)) n (format_nat-StartsWithDigit (suc n))
      (parse_uint-format_nat (suc n) (omega (arith, fits.above))) fits.above
