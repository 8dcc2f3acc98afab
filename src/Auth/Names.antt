-- ===== src/Auth/Names.antt =====
-- The constants of auth/auth_handler.go, auth/authorizer.go and auth/authorizer_api_key.go.
use path_external_auth_serve.Base.{GoString, bytes}

abbrev pub account_rate_limit_message : GoString
account_rate_limit_message =
    bytes
      "This account is rate limited. To upgrade your plan or modify your account settings, log in to your account at https://portal.grove.city/"

abbrev pub path_prefix : GoString
path_prefix = bytes "/v1/"

abbrev pub req_header_portal_app_id : GoString
req_header_portal_app_id = bytes "Portal-Application-ID"

abbrev pub req_header_account_id : GoString
req_header_account_id = bytes "Portal-Account-ID"

abbrev pub auth_header_key : GoString
auth_header_key = bytes "Authorization"

abbrev pub api_key_prefix : GoString
api_key_prefix = bytes "Bearer "

abbrev pub err_unauthorized : GoString
err_unauthorized = bytes "unauthorized"
