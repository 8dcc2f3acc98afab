-- ===== src/Base/Atoi.antt =====
-- strconv.Atoi: a decimal number with an optional sign, within 64 bits.
use Prim.Native.Nat.{ℕ, zero, suc, ◌+◌, ◌-◌, ◌*◌, ◌^◌}
use mathlib.Core.Bool.{Bool, true, false, ◌&&◌}
use mathlib.Core.List.{[], ◌∷◌}
use path_external_auth_serve.Base.Tests.{if◌then◌else◌, leb, ltb, nat_eq}
use path_external_auth_serve.Base.Text.{GoString}
use path_external_auth_serve.Base.Ints.{ℤ, pos, negsuc}

-- ErrSyntax and ErrRange
pub data Parsed (A : Type 0) : Type 0 where
  parsed : A → Parsed A
  bad_syntax out_of_range : Parsed A

-- The digits one by one: a number that leaves 64 bits is out of range at once.
unfoldable pub parse_uint : ℕ → GoString → Parsed ℕ
parse_uint n [] = parsed n
parse_uint n (c ∷ s) =
    let rest = parse_uint (n * 10 + (c - b'0')) s in
    if leb b'0' c && leb c b'9'
    then (if ltb (n * 10 + (c - b'0')) (2 ^ 64) then rest else out_of_range)
    else bad_syntax

abbrev negated : ℕ → ℤ
negated zero = pos 0
negated (suc n) = negsuc n

unfoldable pub parse_digits : Bool → GoString → Parsed ℤ
unfolding parse_uint
parse_digits negative [] = bad_syntax
parse_digits negative (c ∷ s) = elim (parse_uint 0 (c ∷ s)) [
  | bad_syntax ↦ bad_syntax
  | out_of_range ↦ out_of_range
  | parsed n ↦
      if negative
      then (if leb n (2 ^ 63) then parsed (negated n) else out_of_range)
      else if ltb n (2 ^ 63)
      then parsed (pos n)
      else out_of_range
]

unfoldable pub atoi : GoString → Parsed ℤ
unfolding parse_digits
atoi [] = bad_syntax
atoi (c ∷ s) =
    if nat_eq c b'-'
    then parse_digits true s
    else if nat_eq c b'+'
    then parse_digits false s
    else parse_digits false (c ∷ s)
