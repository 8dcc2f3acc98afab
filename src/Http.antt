-- ===== src/Http.antt =====
-- What the program uses of net/http: the type http.Header with Add and Get, and the canonical form
-- of a header's key (textproto.CanonicalMIMEHeaderKey).
pub mod Keys
use path_external_auth_serve.Base.{
  GoString, GoMap, lookup, insert, ℕ, ◌+◌, ◌-◌, leb, nat_eq, all, Bool, true, false, ◌&&◌, ◌||◌,
  Option, none, some, List, [], ◌∷◌, ◌++◌, if◌then◌else◌, bytes,
}

abbrev pub Header : Type 0
Header = GoMap (List GoString)

unfoldable pub is_lower : ℕ → Bool
is_lower c = leb b'a' c && leb c b'z'

unfoldable pub is_upper : ℕ → Bool
is_upper c = leb b'A' c && leb c b'Z'

-- the bytes of `bytes "!#$%&'*+-.^_`|~"` and the digits: tokens that are no letters
unfoldable pub is_token_symbol : ℕ → Bool
is_token_symbol c =
    (leb b'0' c && leb c b'9')
    || nat_eq c 33
    || nat_eq c 35
    || nat_eq c 36
    || nat_eq c 37
    || nat_eq c 38
    || nat_eq c 39
    || nat_eq c 42
    || nat_eq c 43
    || nat_eq c 45
    || nat_eq c 46
    || nat_eq c 94
    || nat_eq c 95
    || nat_eq c 96
    || nat_eq c 124
    || nat_eq c 126

unfoldable pub valid_header_field_byte : ℕ → Bool
unfolding is_lower is_upper is_token_symbol
valid_header_field_byte c = is_lower c || is_upper c || is_token_symbol c

unfoldable pub to_upper : ℕ → ℕ
unfolding is_lower
to_upper c = if is_lower c then c - 32 else c

unfoldable pub to_lower : ℕ → ℕ
unfolding is_upper
to_lower c = if is_upper c then c + 32 else c

-- Upper case at the start and behind a dash, lower case elsewhere.
unfoldable pub canonical : Bool → GoString → GoString
unfolding to_upper to_lower
canonical upper [] = []
canonical upper (c ∷ s) = (if upper then to_upper c else to_lower c) ∷ canonical (nat_eq c b'-') s

-- A key with a byte that no header's name may hold is left alone.
unfoldable pub canonical_key : GoString → GoString
unfolding canonical valid_header_field_byte
canonical_key s = if all valid_header_field_byte s then canonical true s else s

abbrev pub values_of : Option (List GoString) → List GoString
values_of none = []
values_of (some values) = values

abbrev pub first_of : List GoString → GoString
first_of [] = []
first_of (value ∷ _) = value

-- h.Add(key, value)
unfoldable pub add : Header → GoString → GoString → Header
unfolding canonical_key
add h key value = let k = canonical_key key in insert k (values_of (lookup k h) ++ value ∷ []) h

-- h.Get(key): the empty string where there is none
unfoldable pub get : Header → GoString → GoString
unfolding canonical_key
get h key = first_of (values_of (lookup (canonical_key key) h))

-- h.Set(key, value)
unfoldable pub set : Header → GoString → GoString → Header
unfolding canonical_key
set h key value = insert (canonical_key key) (value ∷ []) h
