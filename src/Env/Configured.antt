-- ===== src/Env/Configured.antt =====
-- Which configurations gatherEnvVars of env.go returns, told from the environment.
use path_external_auth_serve.Base.{
  bytes, ok, none, [], false, ◌≡◌, ◌≢◌, ◌↔◌, refl, sym, ap, ◌∙◌, subst, string_eq_ne, string_Eq,
}
use path_external_auth_serve.Grove.Connection.{
  IsConnectionString, is_valid_postgres_connection_string, is_valid_postgres_connection_string_iff,
}
use path_external_auth_serve.Env.{
  Runtime, EnvVars, hydrate_defaults, validate, checked, text_or, gather_env_vars, port_env,
  default_port, metrics_port_env, default_metrics_port, pprof_port_env, default_pprof_port,
  postgres_connection_string_env, gcp_project_id_env, portal_app_store_refresh_interval_env,
  rate_limit_store_refresh_interval_env, logger_level_env, image_tag_env, default_logger_level,
  default_image_tag, default_portal_app_store_refresh_interval,
  default_rate_limit_store_refresh_interval,
}
use path_external_auth_serve.Env.Gathered.{
  IsPort, IsInterval, gathered, port_from-IsPort, duration_from-IsInterval, port_from_complete,
  duration_from_complete,
}
use path_external_auth_serve.Env.Valid.{validate-none}

-- The configuration that an environment asks for.
pub record IsAskedFor (r : Runtime) (e : EnvVars) : Type 0 where
  pub connection : e.postgres_connection_string ≡ r.getenv postgres_connection_string_env
  pub well_formed : IsConnectionString e.postgres_connection_string
  pub project : e.gcp_project_id ≡ r.getenv gcp_project_id_env
  pub project_set : e.gcp_project_id ≢ []
  pub port : IsPort (r.getenv port_env) default_port e.port
  pub metrics_port : IsPort (r.getenv metrics_port_env) default_metrics_port e.metrics_port
  pub pprof_port : IsPort (r.getenv pprof_port_env) default_pprof_port e.pprof_port
  pub level : e.logger_level ≡ text_or default_logger_level (r.getenv logger_level_env)
  pub tag : e.image_tag ≡ text_or default_image_tag (r.getenv image_tag_env)
  pub refresh :
      IsInterval r
        (r.getenv portal_app_store_refresh_interval_env)
        default_portal_app_store_refresh_interval
        e.portal_app_store_refresh_interval
  pub limits :
      IsInterval r
        (r.getenv rate_limit_store_refresh_interval_env)
        default_rate_limit_store_refresh_interval
        e.rate_limit_store_refresh_interval

empty_refused : is_valid_postgres_connection_string [] ≡ false
unfolding is_valid_postgres_connection_string bytes
empty_refused = refl

validate_complete :
    (e : EnvVars)
    → IsConnectionString e.postgres_connection_string
    → e.gcp_project_id ≢ []
    → validate e ≡ none
unfolding validate is_valid_postgres_connection_string
validate_complete e formed project =
    let accepted =
      (is_valid_postgres_connection_string_iff e.postgres_connection_string).1 formed in
    let given : e.postgres_connection_string ≢ [] =
      λ empty. cc (ap is_valid_postgres_connection_string (sym empty), accepted, empty_refused) in
    rw
      (
        string_eq_ne e.postgres_connection_string [] given,
        string_eq_ne e.gcp_project_id [] project,
        accepted,
      )
      refl

IsAskedFor-sound : (r : Runtime) (e : EnvVars) → gather_env_vars r ≡ ok e → IsAskedFor r e
unfolding hydrate_defaults
IsAskedFor-sound r e h =
    let (raw, from, same, valid) = gathered r e h in
    let (project_set, formed) = validate-none (hydrate_defaults raw) valid in
    subst (IsAskedFor r) (sym same) (record {
      connection = from.connection;
      well_formed = formed;
      project = from.project;
      project_set = project_set;
      port = port_from-IsPort r port_env _ default_port raw.port from.port;
      metrics_port =
          port_from-IsPort r metrics_port_env _ default_metrics_port raw.metrics_port
            from.metrics_port;
      pprof_port =
          port_from-IsPort r pprof_port_env _ default_pprof_port raw.pprof_port from.pprof_port;
      level = ap (text_or default_logger_level) from.level;
      tag = ap (text_or default_image_tag) from.tag;
      refresh =
          duration_from-IsInterval r portal_app_store_refresh_interval_env _
            default_portal_app_store_refresh_interval raw.portal_app_store_refresh_interval
            from.refresh;
      limits =
          duration_from-IsInterval r rate_limit_store_refresh_interval_env _
            default_rate_limit_store_refresh_interval raw.rate_limit_store_refresh_interval
            from.limits;
    })

same_env :
    (e f : EnvVars)
    → e.postgres_connection_string ≡ f.postgres_connection_string
    → e.gcp_project_id ≡ f.gcp_project_id
    → e.port ≡ f.port
    → e.metrics_port ≡ f.metrics_port
    → e.pprof_port ≡ f.pprof_port
    → e.logger_level ≡ f.logger_level
    → e.image_tag ≡ f.image_tag
    → e.portal_app_store_refresh_interval ≡ f.portal_app_store_refresh_interval
    → e.rate_limit_store_refresh_interval ≡ f.rate_limit_store_refresh_interval
    → e ≡ f
same_env e f a b c d g h k l m = cc

IsAskedFor-complete : (r : Runtime) (e : EnvVars) → IsAskedFor r e → gather_env_vars r ≡ ok e
unfolding gather_env_vars hydrate_defaults
IsAskedFor-complete r e asked =
    let (port, p1, q1) =
      port_from_complete r port_env (bytes "invalid port format: ") default_port e.port
        asked.port in
    let (metrics_port, p2, q2) =
      port_from_complete r metrics_port_env (bytes "invalid metrics port format: ")
        default_metrics_port e.metrics_port asked.metrics_port in
    let (pprof_port, p3, q3) =
      port_from_complete r pprof_port_env (bytes "invalid pprof port format: ") default_pprof_port
        e.pprof_port asked.pprof_port in
    let (refresh, p4, q4) =
      duration_from_complete r portal_app_store_refresh_interval_env
        (bytes "invalid refresh interval format: ") _ _ asked.refresh in
    let (limits, p5, q5) =
      duration_from_complete r rate_limit_store_refresh_interval_env
        (bytes "invalid refresh interval format: ") _ _ asked.limits in
    let same =
      same_env _ e (sym asked.connection) (sym asked.project) (sym q1) (sym q2) (sym q3)
        (sym asked.level) (sym asked.tag) (sym q4) (sym q5) in
    rw (p1, p2, p3, p4, p5)
      (ap (λ f. checked (validate f) f) same
        ∙ ap (λ v. checked v e) (validate_complete e asked.well_formed asked.project_set))

-- A configuration is returned exactly when the environment asks for it: its connection string is
-- that of the environment and has the right form, its project is set, each port and interval is the
-- default where its variable is empty or reads as zero and else what its variable reads as, and the
-- level and the image tag are their defaults where their variables are empty. In every other
-- environment there is an error.
pub gather_env_vars_iff : (r : Runtime) (e : EnvVars) → (gather_env_vars r ≡ ok e) ↔ IsAskedFor r e
gather_env_vars_iff r e = (IsAskedFor-sound r e, IsAskedFor-complete r e)
