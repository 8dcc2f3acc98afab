-- ===== src/Auth/Authorizer.antt =====
-- Authorization by API key: auth/authorizer.go and auth/authorizer_api_key.go.
pub mod Keys
use path_external_auth_serve.Base.{
  GoString, bytes, length, take, drop, ltb, ◌&&◌, Run, returns, panics, Option, none, some, [],
  if◌then◌else◌, ◌==◌, string_Eq,
}
use path_external_auth_serve.PortalApp.{Auth, PortalApp}
use path_external_auth_serve.Http.{Header, get}
use path_external_auth_serve.Auth.Names.{auth_header_key, api_key_prefix, err_unauthorized}

-- The interface: an `error`, or none; a call may panic.
pub record Authorizer : Type 0 where
  pub authorize_request : Header → PortalApp → Run (Option GoString)

unfoldable pub strip_prefix : GoString → GoString
strip_prefix header_value =
    if ltb (length api_key_prefix) (length header_value)
      && (take (length api_key_prefix) header_value == api_key_prefix)
    then drop (length api_key_prefix) header_value
    else header_value

-- the comparison with `portalApp.Auth.APIKey`, which panics where `Auth` is nil
unfoldable pub compare_key : GoString → Option Auth → Run (Option GoString)
compare_key api_key none = panics (bytes "nil pointer dereference")
compare_key api_key (some auth) =
    returns (if api_key == auth.api_key then none else some err_unauthorized)

unfoldable pub authorize_request : Header → PortalApp → Run (Option GoString)
unfolding strip_prefix compare_key
authorize_request headers portal_app =
    let header_value = get headers auth_header_key in
    if header_value == []
    then returns (some err_unauthorized)
    else compare_key (strip_prefix header_value) portal_app.auth

abbrev pub authorizer_api_key : Authorizer
authorizer_api_key = record { authorize_request = authorize_request }
