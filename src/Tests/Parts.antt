-- ===== src/Tests/Parts.antt =====
-- The parts of the authorization at sample inputs.
use path_external_auth_serve.Base.{
  GoString, ℕ, List, bytes, string_eq, has_prefix, trim_prefix, split, lookup, HasDistinctKeys,
  returns, ok, err, GoMap, none, some, [], ◌∷◌, ◌++◌, ◌≡◌, ◌≢◌, ◌↔◌, ◌⊎◌, refl,
}
use path_external_auth_serve.Metrics.{MetricOp, register, init_metrics}
use path_external_auth_serve.Http.{get, canonical_key}
use path_external_auth_serve.Http.Keys.{fold_case, IsToken}
use path_external_auth_serve.PortalApp.{PortalAppId}
use path_external_auth_serve.Auth.Names.{
  auth_header_key, err_unauthorized, path_prefix, req_header_portal_app_id,
}
use path_external_auth_serve.Auth.Extractor.{extract_portal_app_id, extract_portal_app_id_from_path}
use path_external_auth_serve.Auth.Extractor.Path.{
  IsFirstSegment, extract_portal_app_id_from_path_iff, extract_portal_app_id_iff,
}
use path_external_auth_serve.Auth.Authorizer.{authorize_request}
use path_external_auth_serve.Auth.Authorizer.Keys.{Presents, authorize_request_iff}
use path_external_auth_serve.Auth.Handler.{convert_map_to_header}
use path_external_auth_serve.Auth.Handler.Headers.{IsLowered, or_empty, get-convert_map_to_header}
use path_external_auth_serve.Tests.Samples.{keyed_app}

canonical_tests :
    (canonical_key (bytes "portal-application-id") ≡ bytes "Portal-Application-Id")
    × (canonical_key (bytes "AUTHORIZATION") ≡ bytes "Authorization")
    × (canonical_key (bytes "two words") ≡ bytes "two words")
unfolding canonical_key bytes
canonical_tests = (refl, refl, refl)

path_tests :
    (extract_portal_app_id_from_path (bytes "/v1/1a2b3c4d") ≡ bytes "1a2b3c4d")
    × (extract_portal_app_id_from_path (bytes "/v1/") ≡ [])
    × (extract_portal_app_id_from_path (bytes "/invalid/1a2b3c4d") ≡ [])
unfolding extract_portal_app_id_from_path has_prefix trim_prefix split bytes
path_tests = (refl, refl, refl)

abbrev entries : GoMap GoString
entries = (bytes "authorization", bytes "Bearer k3y") ∷ []

extract_portal_app_id_from_path_iff_example :
    (extract_portal_app_id_from_path (bytes "/v1/app1/eth") ≡ bytes "app1") ↔ (
      (tail : GoString) × (bytes "/v1/app1/eth" ≡ path_prefix ++ tail)
      × IsFirstSegment b'/' tail (bytes "app1"))
unfolding bytes
extract_portal_app_id_from_path_iff_example =
    extract_portal_app_id_from_path_iff (bytes "/v1/app1/eth") (bytes "app1") (cc)

extract_portal_app_id_iff_example :
    ((id : PortalAppId)
      → (extract_portal_app_id (convert_map_to_header entries) (bytes "/v1/app1") ≡ ok id) ↔ (
          (id ≢ [])
          × ((get (convert_map_to_header entries) req_header_portal_app_id ≡ id)
              ⊎ ((get (convert_map_to_header entries) req_header_portal_app_id ≡ [])
                  × (extract_portal_app_id_from_path (bytes "/v1/app1") ≡ id)))))
    × ((extract_portal_app_id (convert_map_to_header entries) (bytes "/v1/app1")
          ≡ err (bytes "portal app ID not provided in header or path"))
        ↔ ((get (convert_map_to_header entries) req_header_portal_app_id ≡ [])
            × (extract_portal_app_id_from_path (bytes "/v1/app1") ≡ [])))
extract_portal_app_id_iff_example =
    extract_portal_app_id_iff (convert_map_to_header entries) (bytes "/v1/app1")

authorize_request_iff_example :
    ((authorize_request (convert_map_to_header entries) keyed_app ≡ returns none)
      ↔ Presents (get (convert_map_to_header entries) auth_header_key) (bytes "k3y"))
    × ((authorize_request (convert_map_to_header entries) keyed_app ≡ returns none)
        ⊎ (authorize_request (convert_map_to_header entries) keyed_app
            ≡ returns (some err_unauthorized)))
unfolding bytes
authorize_request_iff_example =
    authorize_request_iff (convert_map_to_header entries) keyed_app
      (record { api_key = bytes "k3y" }) refl (cc)

entries-IsLowered : IsLowered entries
unfolding bytes canonical_key fold_case
entries-IsLowered = (refl, tt)

entries-HasDistinctKeys : HasDistinctKeys entries
unfolding lookup
entries-HasDistinctKeys = (refl, tt)

auth_header-IsToken : IsToken auth_header_key
unfolding bytes canonical_key
auth_header-IsToken = refl

get-convert_map_to_header_example :
    get (convert_map_to_header entries) auth_header_key
    ≡ or_empty (lookup (fold_case auth_header_key) entries)
get-convert_map_to_header_example =
    get-convert_map_to_header auth_header_key entries auth_header-IsToken entries-IsLowered
      entries-HasDistinctKeys

-- The names under which the vectors are registered.
abbrev names_of : List (MetricOp ℕ) → List (GoString × Unit {0})
names_of [] = []
names_of (register v ∷ ops) = (v.subsystem ++ bytes "_" ++ v.name, tt) ∷ names_of ops
names_of (_ ∷ ops) = names_of ops

-- No name is taken twice.
init_metrics_names : HasDistinctKeys (names_of init_metrics)
unfolding init_metrics bytes string_eq lookup
init_metrics_names = (refl, (refl, (refl, (refl, (refl, (refl, (refl, tt)))))))
