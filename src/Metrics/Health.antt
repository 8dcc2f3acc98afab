-- ===== src/Metrics/Health.antt =====
-- What the health endpoint answers: metrics/server.go.
use path_external_auth_serve.Base.{
  map, GoString, GoMap, bytes, string_eq, Option, none, some, [], ◌∷◌, ◌≡◌, refl, ◌∙◌, ap,
  if◌then◌else◌, ◌==◌, string_Eq, Bool-cases, inl, inr, arith, lookup, insert,
}
use path_external_auth_serve.Http.{Header, set, get, canonical_key}
use path_external_auth_serve.Json.{encode, lead}
use path_external_auth_serve.Json.Reader.{repaired, read_object}
use path_external_auth_serve.Json.RoundTrip.{valid, valid_member, read_object-encode}
use path_external_auth_serve.Metrics.Server.{ResponseWriter, serve_health, fields}

abbrev pub fresh : ResponseWriter
fresh = record { header = []; sent = none; body = [] }

-- The members of a healthy answer.
abbrev pub healthy : GoString → GoMap GoString
healthy version =
    (bytes "status", bytes "healthy")
    ∷ (bytes "service", bytes "peas")
    ∷ (if version == [] then [] else (bytes "version", valid version) ∷ [])

valid_healthy :
    (version : GoString)
    → map valid_member
        (fields (record { status = bytes "healthy"; service = bytes "peas"; version = version }))
      ≡ healthy version
unfolding fields repaired lead bytes
valid_healthy version = elim (Bool-cases (version == [])) [
  | inl none_set ↦ rw none_set refl
  | inr some_set ↦ rw some_set refl
]

health_sent :
    (version : GoString) (answer again : Option GoString)
    → (header : Header) × ((serve_health version answer again fresh).sent ≡ some (200, header))
      × (get header (bytes "Content-Type") ≡ bytes "application/json")
unfolding serve_health get set canonical_key insert lookup string_eq bytes
health_sent version none again = (_, refl, refl)
health_sent version (some message) none = (_, refl, refl)
health_sent version (some message) (some other) = (_, refl, refl)

-- The health endpoint answers 200 with the type application/json, whatever becomes of the body; the
-- body, where it can be written, is read back as the healthy state, the service's name and, if it is
-- not empty, the version, where a byte that starts no letter of UTF-8 is read as U+FFFD.
pub health_read_back :
    (version : GoString) (answer again : Option GoString)
    → ((header : Header) × ((serve_health version answer again fresh).sent ≡ some (200, header))
        × (get header (bytes "Content-Type") ≡ bytes "application/json"))
      × (read_object 3 (serve_health version none again fresh).body
          ≡ some (healthy version, 10 ∷ []))
unfolding serve_health encode fields
health_read_back version answer again = (
  health_sent version answer again,
  (let optional = if version == [] then [] else (bytes "version", version) ∷ [] in
        read_object-encode 2 (bytes "status") (bytes "healthy")
          ((bytes "service", bytes "peas") ∷ optional) (ground arith))
      ∙ ap (λ members. some (members, 10 ∷ [])) (valid_healthy version),
)
