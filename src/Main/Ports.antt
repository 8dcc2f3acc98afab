-- ===== src/Main/Ports.antt =====
-- The port between env.go and main.go: how it is read from the environment and spelled again.
use path_external_auth_serve.Base.{
  GoString, ℤ, pos, int_eq_iff, arith, inl, inr, bytes, format_int, FitsSigned, ok, ◌++◌, ◌≡◌, ◌≢◌,
  refl, ◌∙◌,
}
use path_external_auth_serve.Base.Atoi.{parsed, atoi}
use path_external_auth_serve.Base.Numerals.{atoi-format_int}
use path_external_auth_serve.Env.{Runtime, EnvVars, gather_env_vars, port_env, default_port}
use path_external_auth_serve.Env.Gathered.{IsPort}
use path_external_auth_serve.Env.Valid.{gather_env_vars_ports}
use path_external_auth_serve.Main.{address}

spelled_port :
    (value : GoString) (default port z : ℤ)
    → FitsSigned 63 z
    → z ≢ pos 0
    → value ≡ format_int z
    → IsPort value default port
    → port ≡ z
unfolding atoi
spelled_port value default port z fits nonzero given (inl (empty, _)) =
    let read : atoi value ≡ parsed z = rw given (atoi-format_int z fits) in cc (rw empty at read)
spelled_port value default port z fits nonzero given (inr (y, _, read, same)) =
    let spelled : atoi value ≡ parsed z = rw given (atoi-format_int z fits) in
    let y_is_z : y ≡ z = cc (read, spelled) in
    same ∙ ground (arith, y_is_z, int_eq_iff z (pos 0), nonzero)

pub given_port :
    (r : Runtime) (e : EnvVars) (z : ℤ)
    → FitsSigned 63 z
    → z ≢ pos 0
    → r.getenv port_env ≡ format_int z
    → gather_env_vars r ≡ ok e
    → address e.port ≡ bytes ":" ++ r.getenv port_env
given_port r e z fits nonzero given h =
    let (is_port, _, _) = gather_env_vars_ports r e h in
    let port : e.port ≡ z =
      spelled_port (r.getenv port_env) default_port e.port z fits nonzero given is_port in
    rw (port, given) refl
