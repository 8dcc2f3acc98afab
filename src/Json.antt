-- ===== src/Json.antt =====
-- What the program uses of encoding/json: how a string is written, with the escapes for HTML that an
-- Encoder makes. A byte that starts no letter of UTF-8 is written as the letter U+FFFD.
pub mod Reader
pub mod Escapes
pub mod Reading
pub mod RoundTrip
use path_external_auth_serve.Base.{
  GoString, GoMap, bytes, ℕ, zero, suc, ◌+◌, ◌-◌, ◌/◌, ◌%◌, leb, ltb, nat_eq, Bool, true, false,
  ◌&&◌, ◌||◌, not, List, [], ◌∷◌, ◌++◌, if◌then◌else◌, ◌≡◌, refl,
}

-- The bytes from `low` to `high`.
abbrev pub in_range : (low high c : ℕ) → Bool
in_range low high c = leb low c && leb c high

-- The text goes on with a byte in the first range and then bytes from 0x80 to 0xBF.
abbrev pub goes_on : (low high more : ℕ) → GoString → Bool
goes_on low high more [] = false
goes_on low high zero (c ∷ s) = in_range low high c
goes_on low high (suc more) (c ∷ s) =
    let rest = goes_on 128 191 more s in in_range low high c && rest

-- utf8.DecodeRune: how many bytes come behind the first byte of a letter, and whether they do.
pub data Lead : Type 0 where
  alone : Lead
  broken : Lead
  followed : (more : ℕ) → Lead

abbrev pub when : Bool → ℕ → Lead
when true more = followed more
when false more = broken

unfoldable pub lead : ℕ → GoString → Lead
lead c s =
    if ltb c 128
    then alone
    else if in_range 194 223 c
    then when (goes_on 128 191 0 s) 1
    else if nat_eq c 224
    then when (goes_on 160 191 1 s) 2
    else if nat_eq c 237
    then when (goes_on 128 159 1 s) 2
    else if in_range 225 239 c
    then when (goes_on 128 191 1 s) 2
    else if nat_eq c 240
    then when (goes_on 144 191 2 s) 3
    else if nat_eq c 244
    then when (goes_on 128 143 2 s) 3
    else if in_range 241 243 c
    then when (goes_on 128 191 2 s) 3
    else broken

-- the digit of the table `hex`
abbrev pub hex_digit : ℕ → ℕ
hex_digit n = if ltb n 10 then b'0' + n else b'a' + (n - 10)

-- `htmlSafeSet` below 0x80
abbrev pub is_html_safe : ℕ → Bool
is_html_safe c =
    leb 32 c
    && not (nat_eq c b'"' || nat_eq c b'\\' || nat_eq c b'<' || nat_eq c b'>' || nat_eq c b'&')

-- the byte behind the backslash in a short escape, or 0 where there is none
abbrev pub short_escape : ℕ → ℕ
short_escape c =
    if nat_eq c b'"'
    then b'"'
    else if nat_eq c b'\\'
    then b'\\'
    else if nat_eq c 8
    then b'b'
    else if nat_eq c 12
    then b'f'
    else if nat_eq c 10
    then b'n'
    else if nat_eq c 13
    then b'r'
    else if nat_eq c 9
    then b't'
    else 0

unfoldable pub escape_ascii : ℕ → GoString
escape_ascii c =
    if is_html_safe c
    then c ∷ []
    else if nat_eq (short_escape c) 0
    then b'\\' ∷ b'u' ∷ b'0' ∷ b'0' ∷ hex_digit (c / 16) ∷ hex_digit (c % 16) ∷ []
    else b'\\' ∷ short_escape c ∷ []

-- U+2028 and U+2029: the bytes E2 80 A8 and E2 80 A9
abbrev pub is_separator : ℕ → GoString → Bool
is_separator c (x ∷ y ∷ s) = nat_eq c 226 && nat_eq x 128 && in_range 168 169 y
is_separator c _ = false

-- the last hexadecimal digit of the separator
abbrev pub separator_digit : GoString → ℕ
separator_digit (x ∷ y ∷ s) = hex_digit (y - 160)
separator_digit _ = 0

-- How many bytes of what follows are copied as they are, or left out.
pub data Pending : Type 0 where
  copying skipping : ℕ → Pending

-- the loop of `appendString`, behind the bytes that are pending
unfoldable pub append_string : Pending → GoString → GoString
append_string pending [] = []
append_string (copying (suc n)) (c ∷ s) = c ∷ append_string (copying n) s
append_string (skipping (suc n)) (c ∷ s) = append_string (skipping n) s
append_string _ (c ∷ s) = elim (lead c s) [
  | alone ↦ escape_ascii c ++ append_string (copying 0) s
  | broken ↦ bytes "\\ufffd" ++ append_string (copying 0) s
  | followed more ↦
      if is_separator c s
      then bytes "\\u202" ++ (separator_digit s ∷ append_string (skipping more) s)
      else c ∷ append_string (copying more) s
]

unfoldable pub quoted : GoString → GoString
quoted s = b'"' ∷ append_string (copying 0) s ++ b'"' ∷ []

-- the loop of the encoder of a struct over its fields, which are strings; `next` is `{` in front of
-- the first field and a comma behind it
unfoldable pub write_fields : ℕ → GoMap GoString → GoString
write_fields next [] = if nat_eq next b'{' then bytes "{}" else bytes "}"
write_fields next ((name, value) ∷ fields) =
    next ∷ (quoted name ++ (b':' ∷ (quoted value ++ write_fields b',' fields)))

-- `Encode` of an Encoder: the object and a new line
unfoldable pub encode : GoMap GoString → GoString
unfolding write_fields
encode fields = write_fields b'{' fields ++ 10 ∷ []

quoted_tests :
    (quoted (bytes "v1.2-<rc>") ≡ bytes "\"v1.2-\\u003crc\\u003e\"")
    × (quoted (b'"' ∷ 10 ∷ 1 ∷ []) ≡ bytes "\"\\\"\\n\\u0001\"")
    × (quoted (195 ∷ 169 ∷ 255 ∷ []) ≡ b'"' ∷ 195 ∷ 169 ∷ bytes "\\ufffd\"")
    × (quoted (226 ∷ 128 ∷ 169 ∷ []) ≡ bytes "\"\\u2029\"")
unfolding quoted append_string bytes lead escape_ascii
quoted_tests = (refl, refl, refl, refl)
