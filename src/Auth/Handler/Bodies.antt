-- ===== src/Auth/Handler/Bodies.antt =====
-- The bodies of the denials of auth/auth_handler.go: a message is put between quotes as it is, and
-- still read back.
use mathlib.Core.List.{append_assoc}
use path_external_auth_serve.Base.{
  GoString, bytes, returns, err, format_nat, some, List, ◌∷◌, ◌++◌, ◌≡◌, refl, ◌∙◌, sym, ap, subst,
  arith,
}
use path_external_auth_serve.Json.Reader.{plain, read_string}
use path_external_auth_serve.Metrics.{MetricOp}
use path_external_auth_serve.Http.{Header}
use path_external_auth_serve.Auth.Names.{err_unauthorized, account_rate_limit_message}
use path_external_auth_serve.Auth.Messages.{
  CheckRequest, CheckResponse, denied_response, StatusCode, code_number, err_body,
  get_denied_check_response, get_ok_check_response,
}
use path_external_auth_serve.Auth.Extractor.{extract_portal_app_id}
use path_external_auth_serve.Auth.Handler.{PortalAppStore, RateLimitStore, check}
use path_external_auth_serve.Auth.Handler.ApiKey.{handler, refused_message}
use path_external_auth_serve.Auth.Handler.View.{
  NamesNone, no_http, no_path, no_id, invalid, unknown, refused, crashed, limited, granted,
}
use path_external_auth_serve.Auth.Handler.Cases.{check_view}
use path_external_auth_serve.Auth.Handler.Outcome.{check_denied_sound}

-- Behind an opening quote the message is read up to the quote that is put behind it.
abbrev pub IsReadBack : GoString → Type 0
IsReadBack message =
    (rest : GoString) → read_string plain (message ++ b'"' ∷ rest) ≡ some (message, rest)

fixed_messages :
    IsReadBack (bytes "HTTP request not found")
    × IsReadBack (bytes "path not provided")
    × IsReadBack (bytes "portal app ID not provided in header or path")
    × IsReadBack (bytes "portal app not found")
    × IsReadBack err_unauthorized
    × IsReadBack account_rate_limit_message
unfolding read_string bytes
fixed_messages = (λ r. refl, λ r. refl, λ r. refl, λ r. refl, λ r. refl, λ r. refl)

extract_portal_app_id_message :
    (headers : Header) (path message : GoString)
    → extract_portal_app_id headers path ≡ err message
    → message ≡ bytes "portal app ID not provided in header or path"
unfolding extract_portal_app_id
extract_portal_app_id_message headers path message h = ground (arith, h)

NamesNone-IsReadBack :
    (req : CheckRequest) (error_type message : GoString)
    → NamesNone req error_type message
    → IsReadBack message
NamesNone-IsReadBack req t message (no_http h _ same) = subst IsReadBack (sym same) fixed_messages.0
NamesNone-IsReadBack req t message (no_path http h e _ same) =
    subst IsReadBack (sym same) fixed_messages.1
NamesNone-IsReadBack req t message (no_id http h path failed _) =
    subst IsReadBack (sym (extract_portal_app_id_message _ http.path message failed))
      fixed_messages.2

-- The body in front of the message.
abbrev pub body_start : StatusCode → GoString
body_start status =
    bytes "{\"code\": " ++ (format_nat (code_number status) ++ bytes ", \"message\": \"")

regrouped :
    (status : StatusCode) (message : GoString)
    → err_body status message ≡ body_start status ++ (message ++ bytes "\"}")
unfolding err_body
regrouped status message =
    let quoted_end = message ++ bytes "\"}" in
    sym (
      append_assoc (bytes "{\"code\": ")
        (format_nat (code_number status) ++ bytes ", \"message\": \"") quoted_end
      ∙ ap (λ t. bytes "{\"code\": " ++ t)
          (append_assoc (format_nat (code_number status)) (bytes ", \"message\": \"") quoted_end))

module _ (apps : PortalAppStore) (limits : RateLimitStore) {F : Type 0} (elapsed : F)
    (req : CheckRequest) (response : CheckResponse) (ops : List (MetricOp F)) where
  -- The message is the one of the denial.
  abbrev IsReadBackFor : CheckResponse → Type 0
  IsReadBackFor r = IsReadBack r.message

  denied_message :
      (m : GoString) (c : StatusCode) {others : List (MetricOp F)}
      → IsReadBack m
      → check (handler apps limits) elapsed req ≡ returns (get_denied_check_response m c, others)
      → check (handler apps limits) elapsed req ≡ returns (response, ops)
      → IsReadBack response.message
  unfolding get_denied_check_response
  denied_message m c back e run =
      subst IsReadBackFor
        (let same : get_denied_check_response m c ≡ response = cc (e, run) in same) back

  denial-IsReadBack :
      {status : StatusCode} {body : GoString}
      → check (handler apps limits) elapsed req ≡ returns (response, ops)
      → response.http_response ≡ denied_response status body
      → IsReadBack response.message
  unfolding get_ok_check_response
  denial-IsReadBack run denied = elim (check_view (handler apps limits) elapsed req) [
    | invalid t m n e ↦ denied_message m _ (NamesNone-IsReadBack req t m n) e run
    | unknown headers id names missing e ↦ denied_message _ _ fixed_messages.3 e run
    | refused headers id app m finds a e ↦
        denied_message m _
          (subst IsReadBack (sym (refused_message apps limits headers app m a)) fixed_messages.4) e
          run
    | crashed headers id app m finds a e ↦ cc (run, e)
    | limited headers id app limit finds a set over e ↦ denied_message _ _ fixed_messages.5 e run
    | granted headers id app finds a within e ↦ absurd (ground (arith, run, e, denied))
  ]

  -- With the authorizer of `main` the body of a denial is an object of the status and the message:
  -- the message stands between quotes without an escape, and a reader of JSON strings reads it back
  -- from behind the opening quote, and the end of the object behind it.
  pub denied_body_read_back :
      {status : StatusCode} {body : GoString}
      → check (handler apps limits) elapsed req ≡ returns (response, ops)
      → response.http_response ≡ denied_response status body
      → (body ≡ body_start status ++ (response.message ++ bytes "\"}"))
        × (read_string plain (response.message ++ bytes "\"}") ≡ some (response.message, bytes "}"))
  unfolding err_body bytes
  denied_body_read_back {status} {body} run denied =
      let (_, _, spelled) =
        check_denied_sound (handler apps limits) elapsed req response ops run denied in
      (spelled ∙ regrouped status response.message, denial-IsReadBack run denied (bytes "}"))
