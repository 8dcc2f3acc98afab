-- ===== src/Env.antt =====
-- The configuration from the environment: env.go. What the program asks of the packages os, time and
-- strconv is an argument: the environment, the reading of a duration, and the quotes around a text
-- in an error.
pub mod Gathered
pub mod Valid
pub mod Configured
use path_external_auth_serve.Base.{
  GoString, bytes, ℤ, pos, Result, ok, err, wrap, Option, none, some, [], ◌++◌, if◌then◌else◌, ◌==◌,
  string_Eq, int_Eq,
}
use path_external_auth_serve.Base.Results.{◌>>=◌}
use path_external_auth_serve.Base.Atoi.{Parsed, parsed, bad_syntax, out_of_range, atoi}
use path_external_auth_serve.Base.Regex.{matches}
use path_external_auth_serve.Grove.Connection.{connection_string_regex}

pub record Runtime : Type 0 where
  pub getenv : GoString → GoString
  -- time.ParseDuration, in nanoseconds
  pub parse_duration : GoString → Result ℤ
  -- strconv.Quote
  pub quote : GoString → GoString

abbrev pub postgres_connection_string_env : GoString
postgres_connection_string_env = bytes "POSTGRES_CONNECTION_STRING"

abbrev pub gcp_project_id_env : GoString
gcp_project_id_env = bytes "GCP_PROJECT_ID"

abbrev pub port_env : GoString
port_env = bytes "PORT"

abbrev pub default_port : ℤ
default_port = pos 10_001

abbrev pub metrics_port_env : GoString
metrics_port_env = bytes "METRICS_PORT"

abbrev pub default_metrics_port : ℤ
default_metrics_port = pos 9090

abbrev pub pprof_port_env : GoString
pprof_port_env = bytes "PPROF_PORT"

abbrev pub default_pprof_port : ℤ
default_pprof_port = pos 6060

abbrev pub logger_level_env : GoString
logger_level_env = bytes "LOGGER_LEVEL"

abbrev pub default_logger_level : GoString
default_logger_level = bytes "info"

abbrev pub image_tag_env : GoString
image_tag_env = bytes "IMAGE_TAG"

abbrev pub default_image_tag : GoString
default_image_tag = bytes "development"

abbrev pub portal_app_store_refresh_interval_env : GoString
portal_app_store_refresh_interval_env = bytes "PORTAL_APP_STORE_REFRESH_INTERVAL"

-- 30 * time.Second
abbrev pub default_portal_app_store_refresh_interval : ℤ
default_portal_app_store_refresh_interval = pos 30_000_000_000

abbrev pub rate_limit_store_refresh_interval_env : GoString
rate_limit_store_refresh_interval_env = bytes "RATE_LIMIT_STORE_REFRESH_INTERVAL"

-- 5 * time.Minute
abbrev pub default_rate_limit_store_refresh_interval : ℤ
default_rate_limit_store_refresh_interval = pos 300_000_000_000

pub record EnvVars : Type 0 where
  pub postgres_connection_string : GoString
  pub gcp_project_id : GoString
  pub port : ℤ
  pub metrics_port : ℤ
  pub pprof_port : ℤ
  pub logger_level : GoString
  pub image_tag : GoString
  pub portal_app_store_refresh_interval : ℤ
  pub rate_limit_store_refresh_interval : ℤ

abbrev pub number_or : ℤ → ℤ → ℤ
number_or default z = if z == pos 0 then default else z

abbrev pub text_or : GoString → GoString → GoString
text_or default s = if s == [] then default else s

unfoldable pub hydrate_defaults : EnvVars → EnvVars
hydrate_defaults e = record e {
  port = number_or default_port e.port;
  metrics_port = number_or default_metrics_port e.metrics_port;
  pprof_port = number_or default_pprof_port e.pprof_port;
  logger_level = text_or default_logger_level e.logger_level;
  image_tag = text_or default_image_tag e.image_tag;
  portal_app_store_refresh_interval =
      number_or default_portal_app_store_refresh_interval e.portal_app_store_refresh_interval;
  rate_limit_store_refresh_interval =
      number_or default_rate_limit_store_refresh_interval e.rate_limit_store_refresh_interval;
}

-- The error of regexp.MatchString is that of a pattern that does not compile, which this one does.
unfoldable pub validate : EnvVars → Option GoString
unfolding matches
validate e =
    if e.postgres_connection_string == []
    then some (postgres_connection_string_env ++ bytes " is not set")
    else if e.gcp_project_id == []
    then some (gcp_project_id_env ++ bytes " is not set")
    else if matches connection_string_regex e.postgres_connection_string
    then none
    else some (bytes "postgresConnectionString does not match the required pattern")

abbrev pub checked : Option GoString → EnvVars → Result EnvVars
checked (some message) e = err message
checked none e = ok e

module _ (r : Runtime) where
  -- the error that strconv.Atoi gives
  abbrev pub number_of : GoString → Parsed ℤ → Result ℤ
  number_of s (parsed z) = ok z
  number_of s bad_syntax =
      err (bytes "strconv.Atoi: parsing " ++ (r.quote s ++ bytes ": invalid syntax"))
  number_of s out_of_range =
      err (bytes "strconv.Atoi: parsing " ++ (r.quote s ++ bytes ": value out of range"))

  -- a variable that is not set, or is empty, leaves the field at zero
  unfoldable pub port_from : GoString → GoString → Result ℤ
  unfolding atoi
  port_from key failure =
      let value = r.getenv key in
      if value == [] then ok (pos 0) else wrap failure (number_of value (atoi value))

  unfoldable pub duration_from : GoString → GoString → Result ℤ
  duration_from key failure =
      let value = r.getenv key in
      if value == [] then ok (pos 0) else wrap failure (r.parse_duration value)

  unfoldable pub gather_env_vars : Result EnvVars
  unfolding port_from duration_from hydrate_defaults validate
  gather_env_vars = do
    port ← port_from port_env (bytes "invalid port format: ")
    metrics_port ← port_from metrics_port_env (bytes "invalid metrics port format: ")
    pprof_port ← port_from pprof_port_env (bytes "invalid pprof port format: ")
    refresh ←
        duration_from portal_app_store_refresh_interval_env
          (bytes "invalid refresh interval format: ")
    limits ←
        duration_from rate_limit_store_refresh_interval_env
          (bytes "invalid refresh interval format: ")
    let e = hydrate_defaults (record {
      postgres_connection_string = r.getenv postgres_connection_string_env;
      gcp_project_id = r.getenv gcp_project_id_env;
      port = port;
      metrics_port = metrics_port;
      pprof_port = pprof_port;
      logger_level = r.getenv logger_level_env;
      image_tag = r.getenv image_tag_env;
      portal_app_store_refresh_interval = refresh;
      rate_limit_store_refresh_interval = limits;
    })
    checked (validate e) e
