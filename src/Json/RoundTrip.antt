-- ===== src/Json/RoundTrip.antt =====
-- An object that was written is read back. No code of its own.
use path_external_auth_serve.Base.{
  ℕ, zero, ◌≤◌, GoString, GoMap, bytes, suc, length, arith, All, ◌<◌, some, [], ◌∷◌, ◌++◌, map, ◌≡◌,
  refl, ap, ◌∙◌,
}
use mathlib.Core.List.{append_assoc}
use path_external_auth_serve.Json.{copying, append_string, quoted, write_fields, encode, lead}
use path_external_auth_serve.Json.Reader.{
  repaired, read_string, plain, read_quoted, read_member, read_members, read_object,
}
use path_external_auth_serve.Json.Reading.{read_string-append_string}

-- The text with U+FFFD for each byte that starts no letter.
abbrev pub valid : GoString → GoString
valid s = repaired (copying 0) s

abbrev pub valid_member : GoString × GoString → GoString × GoString
valid_member (name, value) = (valid name, valid value)

quoted_back : (s rest : GoString) → read_quoted (quoted s ++ rest) ≡ some (valid s, rest)
unfolding quoted
quoted_back s rest =
    ap (read_string plain) (append_assoc (append_string (copying 0) s) (b'"' ∷ []) rest)
    ∙ read_string-append_string rest (copying 0) s tt

member_back :
    (name value rest : GoString)
    → read_member (quoted name ++ (b':' ∷ (quoted value ++ rest)))
      ≡ some ((valid name, valid value), rest)
member_back name value rest = rw (quoted_back name, quoted_back value) refl

regroup :
    (name value text rest : GoString)
    → (quoted name ++ (b':' ∷ (quoted value ++ text))) ++ rest
      ≡ quoted name ++ (b':' ∷ (quoted value ++ (text ++ rest)))
regroup name value text rest =
    append_assoc (quoted name) (b':' ∷ (quoted value ++ text)) rest
    ∙ ap (λ t. quoted name ++ (b':' ∷ t)) (append_assoc (quoted value) text rest)

members_back :
    (n : ℕ) (name value : GoString) (fields : GoMap GoString) (rest : GoString)
    → length fields ≤ n
    → read_members
        (suc n)
        ((quoted name ++ (b':' ∷ (quoted value ++ write_fields b',' fields))) ++ rest)
      ≡ some (map valid_member ((name, value) ∷ fields), rest)
unfolding read_members write_fields bytes
members_back n name value [] rest enough =
    rw (regroup name value (b'}' ∷ []) rest, member_back name value (b'}' ∷ rest)) refl
members_back zero name value (field ∷ fields) rest enough = absurd (omega (arith, enough))
members_back (suc n) name value ((name', value') ∷ fields) rest enough =
    let later = quoted name' ++ (b':' ∷ (quoted value' ++ write_fields b',' fields)) in
    rw
      (
        regroup name value (b',' ∷ later) rest,
        member_back name value (b',' ∷ (later ++ rest)),
        members_back n name' value' fields rest (omega (arith, enough)),
      )
      refl

-- The fields of a struct that are written are read back, in their order; a byte that starts no
-- letter of UTF-8 is read as U+FFFD.
pub read_object-encode :
    (n : ℕ) (name value : GoString) (fields : GoMap GoString)
    → length fields ≤ n
    → read_object (suc n) (encode ((name, value) ∷ fields))
      ≡ some (map valid_member ((name, value) ∷ fields), 10 ∷ [])
unfolding read_object encode write_fields
read_object-encode n name value fields enough = members_back n name value fields (10 ∷ []) enough

-- ASCII is not changed.
pub valid_ascii : (s : GoString) → All (λ c. c < 128) s → valid s ≡ s
unfolding repaired lead
valid_ascii [] h = refl
valid_ascii (c ∷ s) (small, h) = ground (arith, valid_ascii s h)
