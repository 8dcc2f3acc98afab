-- ===== src/Base/Decimal.antt =====
-- The decimal print of an integer: strconv.FormatInt(n, 10) and the verb %d of package fmt.
use Prim.Native.Nat.{ℕ, zero, suc, ◌+◌, ◌/◌, ◌%◌}
use mathlib.Core.Path.{◌≡◌, refl}
use mathlib.Core.List.{[], ◌∷◌}
use path_external_auth_serve.Base.Tests.{if◌then◌else◌, nat_eq}
use path_external_auth_serve.Base.Text.{GoString, bytes}
use path_external_auth_serve.Base.Ints.{ℤ, pos, negsuc}

-- One round for each digit, the last digit first; `n` rounds are enough for the number `n`.
unfoldable pub digits : ℕ → ℕ → GoString → GoString
digits zero n out = out
digits (suc fuel) n out =
    let rest = digits fuel (n / 10) ((b'0' + n % 10) ∷ out) in if nat_eq n 0 then out else rest

unfoldable pub format_nat : ℕ → GoString
unfolding digits
format_nat n = if nat_eq n 0 then b'0' ∷ [] else digits n n []

unfoldable pub format_int : ℤ → GoString
unfolding format_nat
format_int (pos n) = format_nat n
format_int (negsuc n) = b'-' ∷ format_nat (suc n)

format_int_tests :
    (format_int (pos 0) ≡ bytes "0")
    × (format_int (pos 1_000_000) ≡ bytes "1000000")
    × (format_int (negsuc 41) ≡ bytes "-42")
unfolding format_int bytes
format_int_tests = (refl, refl, refl)
