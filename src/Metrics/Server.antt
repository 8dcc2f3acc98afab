-- ===== src/Metrics/Server.antt =====
-- The servers for observability: metrics/server.go and metrics/pprof.go. A server is its address and
-- the handlers that are registered for its paths; what net/http does with them is not modelled, and
-- neither are the handlers of Prometheus and of package pprof. The handler of the health endpoint
-- writes to a http.ResponseWriter, which is a state here.
use path_external_auth_serve.Base.{
  GoString, GoMap, bytes, ℕ, Option, none, some, [], ◌∷◌, ◌++◌, if◌then◌else◌, ◌==◌, string_Eq,
}
use path_external_auth_serve.Http.{Header, set}
use path_external_auth_serve.Json.{encode}

abbrev pub endpoint_metrics : GoString
endpoint_metrics = bytes "/metrics"

abbrev pub endpoint_health : GoString
endpoint_health = bytes "/healthz"

pub data HttpHandler : Type 0 where
  prometheus pprof_index pprof_cmdline pprof_profile pprof_symbol pprof_trace : HttpHandler
  health : (version : GoString) → HttpHandler

pub record Server : Type 0 where
  pub addr : GoString
  pub mux : GoMap HttpHandler

pub record HealthResponse : Type 0 where
  pub status : GoString
  pub service : GoString
  pub version : GoString

-- the fields with their tags; `omitempty` leaves an empty version out
unfoldable pub fields : HealthResponse → GoMap GoString
fields r =
    (bytes "status", r.status)
    ∷ (bytes "service", r.service)
    ∷ (if r.version == [] then [] else (bytes "version", r.version) ∷ [])

-- The headers so far, what was sent as the status and its headers, and the body.
pub record ResponseWriter : Type 0 where
  pub header : Header
  pub sent : Option (ℕ × Header)
  pub body : GoString

-- The status is sent once; later calls do nothing.
unfoldable pub write_header : ResponseWriter → ℕ → ResponseWriter
write_header w status = elim w.sent [
  | none ↦ record w { sent = some (status, w.header) }
  | some _ ↦ w
]

-- A write sends the status 200 if none was sent; `answer` is the error of the connection.
unfoldable pub write : ResponseWriter → Option GoString → GoString → ResponseWriter
unfolding write_header
write w (some message) text = write_header w 200
write w none text = let w' = write_header w 200 in record w' { body = w'.body ++ text }

-- http.Error, whose own write may fail too
unfoldable pub http_error : ResponseWriter → Option GoString → GoString → ℕ → ResponseWriter
unfolding write set
http_error w answer message status =
    let h =
      set (set w.header (bytes "Content-Type") (bytes "text/plain; charset=utf-8"))
        (bytes "X-Content-Type-Options") (bytes "nosniff") in
    write (write_header (record w { header = h }) status) answer (message ++ 10 ∷ [])

-- what the handler does with the outcome of `Encode`
abbrev pub after_encode : ResponseWriter → Option GoString → Option GoString → ResponseWriter
after_encode w (some message) again = http_error w again (bytes "Internal Server Error") 500
after_encode w none again = w

-- The handler of the health endpoint: `answer` is what the connection answers to the body, `again`
-- to the text of the error.
unfoldable pub serve_health :
    GoString → Option GoString → Option GoString → ResponseWriter → ResponseWriter
unfolding write fields encode set http_error
serve_health version answer again w =
    let w1 = record w { header = set w.header (bytes "Content-Type") (bytes "application/json") } in
    let w2 = write_header w1 200 in
    let response : HealthResponse = record {
      status = bytes "healthy";
      service = bytes "peas";
      version = version;
    } in
    after_encode (write w2 answer (encode (fields response))) answer again

-- the server that is started, and the error
unfoldable pub serve_metrics : GoString → GoString → Server × Option GoString
serve_metrics addr version = (
  record {
    addr = addr;
    mux = (endpoint_metrics, prometheus) ∷ (endpoint_health, health version) ∷ [];
  },
  none,
)

unfoldable pub serve_pprof : GoString → Server
serve_pprof addr = record {
  addr = addr;
  mux =
      (bytes "/debug/pprof/", pprof_index)
      ∷ (bytes "/debug/pprof/cmdline", pprof_cmdline)
      ∷ (bytes "/debug/pprof/profile", pprof_profile)
      ∷ (bytes "/debug/pprof/symbol", pprof_symbol)
      ∷ (bytes "/debug/pprof/trace", pprof_trace)
      ∷ [];
}
