-- ===== src/Auth/Handler/Headers.antt =====
-- Looking a header up in a request whose headers came as a map: convertMapToHeader of
-- auth/auth_handler.go with Get of net/http.
use mathlib.Core.List.{append_assoc, append-nil}
use path_external_auth_serve.Base.{
  GoString, GoMap, lookup, lookup-insert, HasDistinctKeys, All, Option, none, some, List, [], ◌∷◌,
  ◌++◌, ◌≡◌, refl, sym, ap, ◌∙◌, arith, if◌then◌else◌, ◌==◌, string_Eq, string_eq_iff, Bool-cases,
  inl, inr,
}
use path_external_auth_serve.Http.{Header, canonical_key, values_of, first_of, add, get}
use path_external_auth_serve.Http.Keys.{fold_case, IsToken, canonical_key-eq_lower}
use path_external_auth_serve.Auth.Handler.{add_all, convert_map_to_header}

-- The values of the entries with a canonical key, in the order of the iteration.
abbrev values_under : GoString → GoMap GoString → List GoString
values_under k [] = []
values_under k ((key, value) ∷ entries) =
    let rest = values_under k entries in if canonical_key key == k then value ∷ rest else rest

values_of-add :
    (h : Header) (key value k : GoString)
    → values_of (lookup k (add h key value)) ≡ (
        if canonical_key key == k
        then values_of (lookup k h) ++ value ∷ []
        else values_of (lookup k h))
unfolding add
values_of-add h key value k = ground (
  arith,
  lookup-insert (canonical_key key) k (values_of (lookup (canonical_key key) h) ++ value ∷ []) h,
  string_eq_iff (canonical_key key) k,
)

values_of-add_all :
    (h : Header) (entries : GoMap GoString) (k : GoString)
    → values_of (lookup k (add_all h entries)) ≡ values_of (lookup k h) ++ values_under k entries
unfolding add_all
values_of-add_all h [] k = sym (append-nil _)
values_of-add_all h ((key, value) ∷ entries) k = elim (Bool-cases (canonical_key key == k)) [
  | inl same ↦
      rw (values_of-add_all (add h key value) entries k, values_of-add h key value k, same)
        (append_assoc (values_of (lookup k h)) (value ∷ []) (values_under k entries))
  | inr other ↦
      rw (values_of-add_all (add h key value) entries k, values_of-add h key value k, other)
]

-- Headers as Envoy sends them: every name is in lower case, be it a token or, as ":path", none.
abbrev pub IsLowered : GoMap GoString → Type 0
IsLowered = All (λ e. fold_case e.0 ≡ e.0)

abbrev pub or_empty : Option GoString → GoString
or_empty none = []
or_empty (some s) = s

values_under-nil :
    (name : GoString) (entries : GoMap GoString)
    → IsToken name
    → IsLowered entries
    → lookup (fold_case name) entries ≡ none
    → values_under (canonical_key name) entries ≡ []
unfolding lookup
values_under-nil name [] t l h = refl
values_under-nil name ((key, value) ∷ entries) t (lower, l) h = ground (
  arith,
  canonical_key-eq_lower key name lower t,
  string_eq_iff (canonical_key key) (canonical_key name),
  string_eq_iff key (fold_case name),
  lower,
  values_under-nil name entries t l,
)

values_under-lookup :
    (name : GoString) (entries : GoMap GoString)
    → IsToken name
    → IsLowered entries
    → HasDistinctKeys entries
    → first_of (values_under (canonical_key name) entries)
      ≡ or_empty (lookup (fold_case name) entries)
unfolding lookup
values_under-lookup name [] t l d = refl
values_under-lookup name ((key, value) ∷ entries) t (lower, l) (fresh, d) = ground (
  arith,
  canonical_key-eq_lower key name lower t,
  string_eq_iff (canonical_key key) (canonical_key name),
  string_eq_iff key (fold_case name),
  lower,
  values_under-lookup name entries t l d,
)

-- Where every name came in lower case, as Envoy sends them, the pseudo-headers included, a header
-- whose name is a token is looked up without regard to case: Get finds the value of the entry whose
-- name is the wanted one in lower case, or the empty string if there is none. The order in which
-- the map is visited plays no part.
pub get-convert_map_to_header :
    (name : GoString) (entries : GoMap GoString)
    → IsToken name
    → IsLowered entries
    → HasDistinctKeys entries
    → get (convert_map_to_header entries) name ≡ or_empty (lookup (fold_case name) entries)
unfolding get convert_map_to_header
get-convert_map_to_header name entries t l d =
    ap first_of (values_of-add_all [] entries (canonical_key name))
    ∙ (unfold lookup in values_under-lookup name entries t l d)
