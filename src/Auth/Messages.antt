-- ===== src/Auth/Messages.antt =====
-- Envoy's messages, with the fields that auth/auth_handler.go reads or sets, and the responses that
-- it builds.
use path_external_auth_serve.Base.{
  GoString, bytes, ℕ, format_nat, GoMap, Option, none, some, List, ◌++◌,
}

-- The part of a CheckRequest that is read; each message may be absent.
pub record HttpRequest : Type 0 where
  pub path : GoString
  pub headers : GoMap GoString

pub record AttributeRequest : Type 0 where
  pub http : Option HttpRequest

pub record AttributeContext : Type 0 where
  pub request : Option AttributeRequest

pub record CheckRequest : Type 0 where
  pub attributes : Option AttributeContext

-- `checkReq.GetAttributes().GetRequest().GetHttp()`: a getter of an absent message gives nil
unfoldable pub get_http : CheckRequest → Option HttpRequest
get_http check_req = elim check_req.attributes [
  | none ↦ none
  | some attributes ↦ elim attributes.request [ none ↦ none | some request ↦ request.http ]
]

-- envoy_type.StatusCode, the codes that are used
pub data StatusCode : Type 0 where
  bad_request unauthorized not_found too_many_requests : StatusCode

abbrev pub code_number : StatusCode → ℕ
code_number bad_request = 400
code_number unauthorized = 401
code_number not_found = 404
code_number too_many_requests = 429

-- google.rpc.Code
abbrev pub code_ok : ℕ
code_ok = 0

abbrev pub code_permission_denied : ℕ
code_permission_denied = 7

pub record HeaderValue : Type 0 where
  pub key : GoString
  pub value : GoString

pub data HttpResponse : Type 0 where
  ok_response : List HeaderValue → HttpResponse
  denied_response : StatusCode → GoString → HttpResponse

pub record CheckResponse : Type 0 where
  pub code : ℕ
  pub message : GoString
  pub http_response : HttpResponse

-- fmt.Sprintf(errBody, httpCode, err)
unfoldable pub err_body : StatusCode → GoString → GoString
err_body http_code message =
    bytes "{\"code\": "
    ++ (format_nat (code_number http_code)
        ++ (bytes ", \"message\": \"" ++ (message ++ bytes "\"}")))

unfoldable pub get_denied_check_response : GoString → StatusCode → CheckResponse
get_denied_check_response message http_code = record {
  code = code_permission_denied;
  message = message;
  http_response = denied_response http_code (err_body http_code message);
}

unfoldable pub get_ok_check_response : List HeaderValue → CheckResponse
get_ok_check_response headers = record {
  code = code_ok;
  message = bytes "ok";
  http_response = ok_response headers;
}
