-- ===== src/Env/Gathered.antt =====
-- What gatherEnvVars of env.go has read from the environment where it returns a configuration.
use path_external_auth_serve.Base.{
  GoString, bytes, ℤ, pos, ok, wrap, Option, none, some, [], ◌≡◌, ◌≢◌, ◌⊎◌, inl, inr, refl, arith,
  ◌==◌, string_Eq, string_eq_iff, string_eq_ne, string_eq_refl, int_Eq, Bool-cases,
}
use path_external_auth_serve.Base.Results.{>>=-eq-ok, wrap-eq-ok}
use path_external_auth_serve.Base.Atoi.{Parsed, parsed, bad_syntax, out_of_range, atoi}
use path_external_auth_serve.Env.{
  Runtime, EnvVars, hydrate_defaults, validate, checked, number_or, number_of, port_from,
  duration_from, gather_env_vars, port_env, metrics_port_env, pprof_port_env,
  postgres_connection_string_env, gcp_project_id_env, logger_level_env, image_tag_env,
  portal_app_store_refresh_interval_env, rate_limit_store_refresh_interval_env,
}

-- A port is its default where the variable is empty or spells zero, and else the number that the
-- variable spells.
abbrev pub IsPort : GoString → ℤ → ℤ → Type 0
IsPort value default port =
    ((value ≡ []) × (port ≡ default))
    ⊎ ((z : ℤ) × (value ≢ []) × (atoi value ≡ parsed z) × (port ≡ number_or default z))

-- What was read before the defaults were put in.
pub record IsGathered (r : Runtime) (raw : EnvVars) : Type 0 where
  pub connection : raw.postgres_connection_string ≡ r.getenv postgres_connection_string_env
  pub project : raw.gcp_project_id ≡ r.getenv gcp_project_id_env
  pub level : raw.logger_level ≡ r.getenv logger_level_env
  pub tag : raw.image_tag ≡ r.getenv image_tag_env
  pub port : port_from r port_env (bytes "invalid port format: ") ≡ ok raw.port
  pub metrics_port :
      port_from r metrics_port_env (bytes "invalid metrics port format: ") ≡ ok raw.metrics_port
  pub pprof_port :
      port_from r pprof_port_env (bytes "invalid pprof port format: ") ≡ ok raw.pprof_port
  pub refresh :
      duration_from r portal_app_store_refresh_interval_env
        (bytes "invalid refresh interval format: ")
      ≡ ok raw.portal_app_store_refresh_interval
  pub limits :
      duration_from r rate_limit_store_refresh_interval_env
        (bytes "invalid refresh interval format: ")
      ≡ ok raw.rate_limit_store_refresh_interval

checked_ok :
    (m : Option GoString) (e : EnvVars) {e' : EnvVars} → checked m e ≡ ok e' → (m ≡ none) × (e' ≡ e)
checked_ok none e h = (refl, cc h)
checked_ok (some m) e h = cc h

pub gathered :
    (r : Runtime) (e : EnvVars)
    → gather_env_vars r ≡ ok e
    → (raw : EnvVars) × IsGathered r raw
      × (e ≡ hydrate_defaults raw)
      × (validate (hydrate_defaults raw) ≡ none)
unfolding gather_env_vars
gathered r e h =
    let (port, p1, h1) = >>=-eq-ok (port_from r port_env _) _ h in
    let (metrics_port, p2, h2) = >>=-eq-ok (port_from r metrics_port_env _) _ h1 in
    let (pprof_port, p3, h3) = >>=-eq-ok (port_from r pprof_port_env _) _ h2 in
    let (refresh, p4, h4) =
      >>=-eq-ok (duration_from r portal_app_store_refresh_interval_env _) _ h3 in
    let (limits, p5, h5) =
      >>=-eq-ok (duration_from r rate_limit_store_refresh_interval_env _) _ h4 in
    let (valid, same) = checked_ok _ _ h5 in
    (
      _,
      record {
        connection = refl;
        project = refl;
        level = refl;
        tag = refl;
        port = p1;
        metrics_port = p2;
        pprof_port = p3;
        refresh = p4;
        limits = p5;
      },
      same,
      valid,
    )

number_of_ok :
    (r : Runtime) (s : GoString) (p : Parsed ℤ) {z : ℤ} → number_of r s p ≡ ok z → p ≡ parsed z
number_of_ok r s (parsed n) h = ground (arith, h)
number_of_ok r s bad_syntax h = cc h
number_of_ok r s out_of_range h = cc h

pub port_from-IsPort :
    (r : Runtime) (key failure : GoString) (default z : ℤ)
    → port_from r key failure ≡ ok z
    → IsPort (r.getenv key) default (number_or default z)
unfolding port_from
port_from-IsPort r key failure default z h = elim (Bool-cases (r.getenv key == [])) [
  | inl unset ↦
      let zero_read : z ≡ pos 0 = ground (arith, unset, h) in
      inl ((string_eq_iff (r.getenv key) []).0 unset, rw zero_read refl)
  | inr given ↦
      let read : wrap failure (number_of r (r.getenv key) (atoi (r.getenv key))) ≡ ok z =
        rw given at h in
      inr (
        z,
        λ nothing. ground (arith, string_eq_iff (r.getenv key) [], given, nothing),
        number_of_ok r _ _ (wrap-eq-ok failure _ read),
        refl,
      )
]

-- An interval is its default where the variable is empty or reads as zero, and else the duration
-- that the variable reads as.
abbrev pub IsInterval : Runtime → GoString → ℤ → ℤ → Type 0
IsInterval r value default interval =
    ((value ≡ []) × (interval ≡ default))
    ⊎ ((z : ℤ) × (value ≢ []) × (r.parse_duration value ≡ ok z) × (interval ≡ number_or default z))

pub duration_from-IsInterval :
    (r : Runtime) (key failure : GoString) (default z : ℤ)
    → duration_from r key failure ≡ ok z
    → IsInterval r (r.getenv key) default (number_or default z)
unfolding duration_from
duration_from-IsInterval r key failure default z h = elim (Bool-cases (r.getenv key == [])) [
  | inl unset ↦
      let zero_read : z ≡ pos 0 = ground (arith, unset, h) in
      inl ((string_eq_iff (r.getenv key) []).0 unset, rw zero_read refl)
  | inr given ↦
      let read : wrap failure (r.parse_duration (r.getenv key)) ≡ ok z = rw given at h in
      inr (
        z,
        λ nothing. ground (arith, string_eq_iff (r.getenv key) [], given, nothing),
        wrap-eq-ok failure _ read,
        refl,
      )
]

-- The number that is read for such a port, and the duration that is read for such an interval.
pub port_from_complete :
    (r : Runtime) (key failure : GoString) (default port : ℤ)
    → IsPort (r.getenv key) default port
    → (z : ℤ) × (port_from r key failure ≡ ok z) × (port ≡ number_or default z)
unfolding port_from
port_from_complete r key failure default port (inl (unset, is_default)) =
    (pos 0, rw (unset, string_eq_refl []) refl, is_default)
port_from_complete r key failure default port (inr (z, given, read, is_port)) =
    (z, rw (string_eq_ne (r.getenv key) [] given, read) refl, is_port)

pub duration_from_complete :
    (r : Runtime) (key failure : GoString) (default interval : ℤ)
    → IsInterval r (r.getenv key) default interval
    → (z : ℤ) × (duration_from r key failure ≡ ok z) × (interval ≡ number_or default z)
unfolding duration_from
duration_from_complete r key failure default interval (inl (unset, is_default)) =
    (pos 0, rw (unset, string_eq_refl []) refl, is_default)
duration_from_complete r key failure default interval (inr (z, given, read, is_interval)) =
    (z, rw (string_eq_ne (r.getenv key) [] given, read) refl, is_interval)

pub duration_from_given :
    (r : Runtime) (key failure : GoString) {d : ℤ}
    → r.getenv key ≢ []
    → r.parse_duration (r.getenv key) ≡ ok d
    → duration_from r key failure ≡ ok d
unfolding duration_from
duration_from_given r key failure given read = rw (string_eq_ne (r.getenv key) [] given, read) refl
