-- ===== src/Env/Valid.antt =====
-- What a configuration that gatherEnvVars of env.go returns satisfies.
use path_external_auth_serve.Base.{
  GoString, bytes, ℤ, pos, int_eq_iff, ok, none, [], ◌≡◌, ◌≢◌, inl, inr, sym, arith, ◌==◌,
  string_Eq, string_eq_iff, int_Eq, true, Bool-cases, subst,
}
use path_external_auth_serve.Base.Regex.{matches}
use path_external_auth_serve.Grove.Connection.{
  IsConnectionString, connection_string_regex, is_valid_postgres_connection_string,
  is_valid_postgres_connection_string_iff,
}
use path_external_auth_serve.Env.{
  Runtime, EnvVars, hydrate_defaults, validate, number_or, text_or, gather_env_vars, port_env,
  default_port, metrics_port_env, default_metrics_port, pprof_port_env, default_pprof_port,
  default_logger_level, default_image_tag, default_portal_app_store_refresh_interval,
  default_rate_limit_store_refresh_interval,
}
use path_external_auth_serve.Env.Gathered.{IsPort, gathered, port_from-IsPort}

record IsValid (e : EnvVars) : Type 0 where
  connection : IsConnectionString e.postgres_connection_string
  project : e.gcp_project_id ≢ []
  ports : (e.port ≢ pos 0) × (e.metrics_port ≢ pos 0) × (e.pprof_port ≢ pos 0)
  texts : (e.logger_level ≢ []) × (e.image_tag ≢ [])
  intervals :
      (e.portal_app_store_refresh_interval ≢ pos 0) × (e.rate_limit_store_refresh_interval ≢ pos 0)

number_or_not_zero : (default z : ℤ) → default ≢ pos 0 → number_or default z ≢ pos 0
number_or_not_zero default z d = elim (Bool-cases (z == pos 0)) [
  | inl zero_set ↦ rw zero_set d
  | inr other ↦ λ e. ground (arith, int_eq_iff z (pos 0), other, e)
]

text_or_not_empty : (default s : GoString) → default ≢ [] → text_or default s ≢ []
text_or_not_empty default s d = elim (Bool-cases (s == [])) [
  | inl empty_set ↦ rw empty_set d
  | inr other ↦ λ e. ground (arith, string_eq_iff s [], other, e)
]

accepted :
    (s : GoString)
    → matches connection_string_regex s ≡ true
    → is_valid_postgres_connection_string s ≡ true
unfolding is_valid_postgres_connection_string
accepted s h = h

level_given : default_logger_level ≢ []
unfolding bytes
level_given e = cc e

tag_given : default_image_tag ≢ []
unfolding bytes
tag_given e = cc e

pub validate-none :
    (e : EnvVars)
    → validate e ≡ none
    → (e.gcp_project_id ≢ []) × IsConnectionString e.postgres_connection_string
unfolding validate
validate-none e h = elim (Bool-cases (e.postgres_connection_string == [])) [
  | inl unset ↦ absurd (ground (arith, h, unset))
  | inr given ↦ elim (Bool-cases (e.gcp_project_id == [])) [
    | inl unset ↦ absurd (ground (arith, h, given, unset))
    | inr project ↦ (
      λ nothing. ground (arith, string_eq_iff e.gcp_project_id [], project, nothing),
      (is_valid_postgres_connection_string_iff e.postgres_connection_string).0
          (accepted e.postgres_connection_string (ground (arith, h, given, project))),
    )
  ]
]

-- Whatever the environment holds, a configuration that is returned has a connection string of the
-- right form, a project, and no port, text or interval that is left at zero.
gather_env_vars-IsValid : (r : Runtime) (e : EnvVars) → gather_env_vars r ≡ ok e → IsValid e
unfolding hydrate_defaults
gather_env_vars-IsValid r e h =
    let (raw, from, same, valid) = gathered r e h in
    let (project, connection) = validate-none (hydrate_defaults raw) valid in
    subst IsValid (sym same) (record {
      connection = connection;
      project = project;
      ports = (
        number_or_not_zero default_port raw.port (λ z. cc z),
        number_or_not_zero default_metrics_port raw.metrics_port (λ z. cc z),
        number_or_not_zero default_pprof_port raw.pprof_port (λ z. cc z),
      );
      texts = (
        text_or_not_empty default_logger_level raw.logger_level level_given,
        text_or_not_empty default_image_tag raw.image_tag tag_given,
      );
      intervals = (
        number_or_not_zero default_portal_app_store_refresh_interval
            raw.portal_app_store_refresh_interval (λ z. cc z),
        number_or_not_zero default_rate_limit_store_refresh_interval
            raw.rate_limit_store_refresh_interval (λ z. cc z),
      );
    })

-- In a configuration that is returned each port is the default where its variable is empty or
-- spells zero, and else the number that its variable spells.
pub gather_env_vars_ports :
    (r : Runtime) (e : EnvVars)
    → gather_env_vars r ≡ ok e
    → IsPort (r.getenv port_env) default_port e.port
      × IsPort (r.getenv metrics_port_env) default_metrics_port e.metrics_port
      × IsPort (r.getenv pprof_port_env) default_pprof_port e.pprof_port
unfolding hydrate_defaults
gather_env_vars_ports r e h =
    let (raw, from, same, valid) = gathered r e h in
    rw same (
      port_from-IsPort r port_env _ default_port raw.port from.port,
      port_from-IsPort r metrics_port_env _ default_metrics_port raw.metrics_port from.metrics_port,
      port_from-IsPort r pprof_port_env _ default_pprof_port raw.pprof_port from.pprof_port,
    )
