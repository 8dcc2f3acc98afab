-- ===== src/Tests/Settings.antt =====
-- The configuration at a sample environment.
use path_external_auth_serve.Base.{
  Result, ℤ, format_int, GoString, bytes, pos, negsuc, string_eq, GoMap, lookup, ok, err, Option,
  none, some, [], ◌∷◌, ◌++◌, ◌≡◌, ◌↔◌, refl, true, false, if◌then◌else◌, ◌==◌, string_Eq,
}
use path_external_auth_serve.Base.Atoi.{parsed, bad_syntax, out_of_range, atoi}
use path_external_auth_serve.Grove.Connection.{
  IsConnectionString, is_valid_postgres_connection_string, is_valid_postgres_connection_string_iff,
}
use path_external_auth_serve.Grove.Driver.{
  Pgxpool, pool_made, pool_closed, new_grove_postgres_driver, IsConnected,
  new_grove_postgres_driver_iff,
}
use path_external_auth_serve.Env.{Runtime, EnvVars, gather_env_vars, port_env}
use path_external_auth_serve.Env.Configured.{IsAskedFor, gather_env_vars_iff}

abbrev pub connection : GoString
connection = bytes "postgresql://user:pa:ss@localhost:5432/db?x=1"

abbrev variables : GoString → GoMap GoString
variables interval =
    (bytes "POSTGRES_CONNECTION_STRING", connection)
    ∷ (bytes "GCP_PROJECT_ID", bytes "project")
    ∷ (bytes "PORT", bytes "8080")
    ∷ (bytes "PORTAL_APP_STORE_REFRESH_INTERVAL", interval)
    ∷ []

abbrev value_of : Option GoString → GoString
value_of none = []
value_of (some value) = value

-- A refresh interval of thirty seconds, and a negative one.
abbrev durations : GoString → Result ℤ
durations s =
    if s == bytes "30s"
    then ok (pos 30_000_000_000)
    else if s == bytes "-30s"
    then ok (negsuc 29_999_999_999)
    else err (bytes "time: invalid duration")

abbrev pub runtime_with : GoString → Runtime
runtime_with interval = record {
  getenv = λ key. value_of (lookup key (variables interval));
  parse_duration = durations;
  quote = λ s. bytes "\"" ++ (s ++ bytes "\"");
}

abbrev pub runtime : Runtime
runtime = runtime_with (bytes "30s")

abbrev pub config_with : ℤ → EnvVars
config_with interval = record {
  postgres_connection_string = connection;
  gcp_project_id = bytes "project";
  port = pos 8080;
  metrics_port = pos 9090;
  pprof_port = pos 6060;
  logger_level = bytes "info";
  image_tag = bytes "development";
  portal_app_store_refresh_interval = interval;
  rate_limit_store_refresh_interval = pos 300_000_000_000;
}

abbrev pub config : EnvVars
config = config_with (pos 30_000_000_000)

pub gathered_run : gather_env_vars runtime ≡ ok config
unfolding gather_env_vars lookup bytes string_eq
gathered_run = refl

pub hasty_gathered_run :
    gather_env_vars (runtime_with (bytes "-30s")) ≡ ok (config_with (negsuc 29_999_999_999))
unfolding gather_env_vars lookup bytes string_eq
hasty_gathered_run = refl

atoi_tests :
    (atoi (bytes "-12") ≡ parsed (negsuc 11))
    × (atoi (bytes "+7") ≡ parsed (pos 7))
    × (atoi (bytes "9223372036854775808") ≡ out_of_range)
    × (atoi (bytes "80x") ≡ bad_syntax)
    × (atoi (bytes "-") ≡ bad_syntax)
unfolding atoi bytes
atoi_tests = (refl, refl, refl, refl, refl)

pattern_tests :
    (is_valid_postgres_connection_string (bytes "postgres://u:p@h:1/d") ≡ true)
    × (is_valid_postgres_connection_string (bytes "postgres://u:p@h/d") ≡ false)
    × (is_valid_postgres_connection_string (bytes "mysql://u:p@h:1/d") ≡ false)
    × (is_valid_postgres_connection_string (bytes "postgres://u:p@h:1/d?") ≡ false)
unfolding is_valid_postgres_connection_string bytes
pattern_tests = (refl, refl, refl, refl)

is_valid_postgres_connection_string_iff_example :
    (is_valid_postgres_connection_string connection ≡ true) ↔ IsConnectionString connection
is_valid_postgres_connection_string_iff_example = is_valid_postgres_connection_string_iff connection

gather_env_vars_iff_example : (gather_env_vars runtime ≡ ok config) ↔ IsAskedFor runtime config
gather_env_vars_iff_example = gather_env_vars_iff runtime config

abbrev pub TheOne : Type 0
TheOne = Unit

-- pgxpool with one pool, which answers the ping or does not.
abbrev pub pgxpool : Option GoString → Pgxpool TheOne TheOne
pgxpool answer = record {
  parse_config = λ s. ok tt;
  new_with_config = λ c. ok tt;
  ping = λ pool. answer;
}

driver_runs :
    (new_grove_postgres_driver (pgxpool none) connection ≡ (ok tt, pool_made tt ∷ []))
    × (new_grove_postgres_driver (pgxpool (some (bytes "timeout"))) connection
        ≡ (err (bytes "failed to ping database: timeout"), pool_made tt ∷ pool_closed tt ∷ []))
unfolding new_grove_postgres_driver bytes
driver_runs = (refl, refl)

new_grove_postgres_driver_iff_example :
    (new_grove_postgres_driver (pgxpool none) connection ≡ (ok tt, pool_made tt ∷ []))
    ↔ (IsConnected (pgxpool none) connection tt × (pool_made tt ∷ [] ≡ pool_made tt ∷ []))
new_grove_postgres_driver_iff_example =
    new_grove_postgres_driver_iff (pgxpool none) connection tt (pool_made tt ∷ [])

pub connection_formed : IsConnectionString connection
unfolding is_valid_postgres_connection_string bytes
connection_formed = (is_valid_postgres_connection_string_iff connection).0 refl

pub port_given : runtime.getenv port_env ≡ format_int (pos 8080)
unfolding lookup bytes string_eq format_int
port_given = refl
