-- ===== src/Tests/Health.antt =====
-- The health endpoint at a sample version.
use path_external_auth_serve.Base.{bytes, string_eq, some, none, [], ◌∷◌, ◌≡◌, refl}
use path_external_auth_serve.Http.{Header, get}
use path_external_auth_serve.Json.{quoted, append_string, escape_ascii, lead, write_fields, encode}
use path_external_auth_serve.Json.Reader.{read_object}
use path_external_auth_serve.Metrics.Server.{serve_health}
use path_external_auth_serve.Metrics.Health.{fresh, healthy, health_read_back}

health_run :
    ((serve_health (bytes "v1") none none fresh).body
      ≡ bytes "{\"status\":\"healthy\",\"service\":\"peas\",\"version\":\"v1\"}\n")
    × ((serve_health [] none none fresh).body
        ≡ bytes "{\"status\":\"healthy\",\"service\":\"peas\"}\n")
unfolding serve_health encode write_fields quoted append_string escape_ascii lead bytes string_eq
health_run = (refl, refl)

health_read_back_example :
    ((header : Header) × ((serve_health (bytes "v<2>") (some (bytes "closed")) none fresh).sent
        ≡ some (200, header))
      × (get header (bytes "Content-Type") ≡ bytes "application/json"))
    × (read_object 3 (serve_health (bytes "v<2>") none none fresh).body
        ≡ some (healthy (bytes "v<2>"), 10 ∷ []))
health_read_back_example = health_read_back (bytes "v<2>") (some (bytes "closed")) none
