-- ===== src/Json/Reader.antt =====
-- A reader of JSON strings and of objects whose members are strings, and the text that a written
-- string stands for. No code of its own.
use path_external_auth_serve.Base.{
  GoString, GoMap, ℕ, zero, suc, ◌+◌, ◌*◌, ◌-◌, ◌/◌, ◌%◌, ltb, nat_eq, Option, none, some, [], ◌∷◌,
  ◌++◌, if◌then◌else◌,
}
use path_external_auth_serve.Json.{
  alone, broken, followed, lead, in_range, Pending, copying, skipping,
}

-- The letter of a code point below 0x10000, in UTF-8.
abbrev pub letter : ℕ → GoString
letter v =
    if ltb v 128
    then v ∷ []
    else if ltb v 2048
    then (192 + v / 64) ∷ (128 + v % 64) ∷ []
    else (224 + v / 4096) ∷ (128 + v / 64 % 64) ∷ (128 + v % 64) ∷ []

abbrev pub hex_value : ℕ → Option ℕ
hex_value c =
    if in_range b'0' b'9' c
    then some (c - b'0')
    else if in_range b'a' b'f' c
    then some (c - b'a' + 10)
    else if in_range b'A' b'F' c
    then some (c - b'A' + 10)
    else none

-- What a backslash and the byte stand for.
abbrev pub unescaped : ℕ → Option ℕ
unescaped c =
    if nat_eq c b'"'
    then some b'"'
    else if nat_eq c b'\\'
    then some b'\\'
    else if nat_eq c b'/'
    then some b'/'
    else if nat_eq c b'b'
    then some 8
    else if nat_eq c b'f'
    then some 12
    else if nat_eq c b'n'
    then some 10
    else if nat_eq c b'r'
    then some 13
    else if nat_eq c b't'
    then some 9
    else none

-- Behind a backslash, or behind `\u` with the digits still to come and the value so far.
pub data Reader : Type 0 where
  plain escaped : Reader
  hex : (more value : ℕ) → Reader

abbrev pub Read : Type 0
Read = Option (GoString × GoString)

abbrev pub in_front : GoString → Read → Read
in_front text none = none
in_front text (some (value, rest)) = some (text ++ value, rest)

-- The string up to its closing quote, and what follows the quote.
unfoldable pub read_string : Reader → GoString → Read
read_string reader [] = none
read_string plain (c ∷ s) =
    let after = read_string plain s in
    let behind = read_string escaped s in
    if nat_eq c b'"'
    then some ([], s)
    else if nat_eq c b'\\'
    then behind
    else if ltb c 32
    then none
    else in_front (c ∷ []) after
read_string escaped (c ∷ s) =
    let after = read_string plain s in
    let digits = read_string (hex 3 0) s in
    if nat_eq c b'u'
    then digits
    else elim (unescaped c) [ none ↦ none | some letter ↦ in_front (letter ∷ []) after ]
read_string (hex more value) (c ∷ s) = elim (hex_value c) [
  | none ↦ none
  | some v ↦ elim more [
    | zero ↦ in_front (letter (value * 16 + v)) (read_string plain s)
    | suc more' ↦ read_string (hex more' (value * 16 + v)) s
  ]
]

-- The text with U+FFFD for each byte that starts no letter.
unfoldable pub repaired : Pending → GoString → GoString
repaired pending [] = []
repaired (copying (suc n)) (c ∷ s) = c ∷ repaired (copying n) s
repaired (skipping (suc n)) (c ∷ s) = repaired (skipping n) s
repaired _ (c ∷ s) = elim (lead c s) [
  | alone ↦ c ∷ repaired (copying 0) s
  | broken ↦ 239 ∷ 191 ∷ 189 ∷ repaired (copying 0) s
  | followed more ↦ c ∷ repaired (copying more) s
]

infixl 5 ◌>>=◌
abbrev pub ◌>>=◌ : {A B : Type 0} → Option A → (A → Option B) → Option B
none >>= next = none
some a >>= next = next a

abbrev pub expect : ℕ → GoString → Option GoString
expect c [] = none
expect c (d ∷ s) = if nat_eq c d then some s else none

-- A string in its quotes, and what follows.
abbrev pub read_quoted : GoString → Read
read_quoted s = expect b'"' s >>= read_string plain

-- A member of an object, whose name and value are strings.
abbrev pub read_member : GoString → Option ((GoString × GoString) × GoString)
read_member s = do
  (name, s1) ← read_quoted s
  s2 ← expect b':' s1
  (value, s3) ← read_quoted s2
  some ((name, value), s3)

-- What follows a member: the end of the object, or more members after a comma.
unfoldable pub read_members : ℕ → GoString → Option (GoMap GoString × GoString)
read_members zero s = none
read_members (suc n) s = do
  (member, s1) ← read_member s
  elim (expect b',' s1) [
    | some s2 ↦ do (members, s3) ← read_members n s2; some (member ∷ members, s3)
    | none ↦ do s2 ← expect b'}' s1; some (member ∷ [], s2)
  ]

-- An object of at most `n` members, and not empty.
unfoldable pub read_object : ℕ → GoString → Option (GoMap GoString × GoString)
unfolding read_members
read_object n s = expect b'{' s >>= read_members n
