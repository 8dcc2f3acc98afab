-- ===== src/Auth/Extractor.antt =====
-- The portal app ID of a request: auth/portal_app_id_extractor.go.
pub mod Path
use path_external_auth_serve.Base.{
  GoString, bytes, has_prefix, trim_prefix, split, Result, ok, err, List, [], ◌∷◌, if◌then◌else◌,
  ◌==◌, string_Eq,
}
use path_external_auth_serve.PortalApp.{PortalAppId}
use path_external_auth_serve.Http.{Header, get}
use path_external_auth_serve.Auth.Names.{req_header_portal_app_id, path_prefix}

unfoldable pub extract_portal_app_id_from_header : Header → PortalAppId
extract_portal_app_id_from_header headers = get headers req_header_portal_app_id

-- `segments[0]`, where there is a segment and it is not empty
abbrev pub first_segment : List GoString → PortalAppId
first_segment [] = []
first_segment (segment ∷ _) = segment

unfoldable pub extract_portal_app_id_from_path : GoString → PortalAppId
extract_portal_app_id_from_path path =
    if has_prefix path path_prefix
    then first_segment (split (trim_prefix path path_prefix) b'/')
    else []

unfoldable pub extract_portal_app_id : Header → GoString → Result PortalAppId
unfolding extract_portal_app_id_from_header extract_portal_app_id_from_path
extract_portal_app_id headers path =
    let from_header = extract_portal_app_id_from_header headers in
    let from_path = extract_portal_app_id_from_path path in
    if from_header == []
    then (if from_path == []
        then err (bytes "portal app ID not provided in header or path")
        else ok from_path)
    else ok from_header
