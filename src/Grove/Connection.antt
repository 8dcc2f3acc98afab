-- ===== src/Grove/Connection.antt =====
-- The pattern of a Postgres connection string: isValidPostgresConnectionString of
-- postgres/grove/driver.go, whose pattern env.go has too.
mod Parts
use path_external_auth_serve.Base.{
  GoString, bytes, ℕ, nat_eq, leb, Bool, true, not, ◌&&◌, [], ◌++◌, ◌≡◌, ◌↔◌, ◌⊎◌, inl, inr, refl,
  sym, subst,
}
use path_external_auth_serve.Base.Regex.{Regex, next, Matches, matches, matches_iff}
use path_external_auth_serve.Grove.Connection.Parts.{
  literal, literal_iff, plus, optional, IsSome, plus_sound, plus_complete, Fits, continued,
  cut_literal, cut_plus, cut_optional, then_literal, then_plus, then_optional,
}

-- [^c], \d and .
abbrev other_than : ℕ → ℕ → Bool
other_than c b = not (nat_eq c b)

abbrev is_digit : ℕ → Bool
is_digit c = leb b'0' c && leb c b'9'

-- The classes and repetitions are over bytes: each class but \d is repeated and holds every byte of
-- a longer character, so that the bytes match where the characters do.
abbrev pub connection_string_regex : Regex
connection_string_regex = next (literal (bytes "postgres")) (
    next (optional (literal (bytes "ql"))) (
      next (literal (bytes "://")) (
        next (plus (other_than b':')) (
          next (literal (bytes ":")) (
            next (plus (other_than b'@')) (
              next (literal (bytes "@")) (
                next (plus (other_than b':')) (
                  next (literal (bytes ":")) (
                    next (plus is_digit) (
                      next (literal (bytes "/")) (
                        next (plus (other_than b'?'))
                          (optional (next (literal (bytes "?")) (plus (other_than 10)))))))))))))))

unfoldable pub is_valid_postgres_connection_string : GoString → Bool
unfolding matches
is_valid_postgres_connection_string s = matches connection_string_regex s

abbrev query_regex : Regex
query_regex = optional (next (literal (bytes "?")) (plus (other_than 10)))

-- Nothing, or "?" and more.
abbrev pub IsQuery : GoString → Type 0
IsQuery s = ((rest : GoString) × (s ≡ bytes "?" ++ rest) × IsSome (other_than 10) rest) ⊎ (s ≡ [])

IsQuery-sound : (s : GoString) → Matches query_regex s → IsQuery s
IsQuery-sound s (inl m) =
    let asked : Fits (next (literal (bytes "?")) (plus (other_than 10))) s = record { fits = m } in
    let (rest, e, n) = cut_literal (bytes "?") asked in inl (rest, e, plus_sound _ rest n.fits)
IsQuery-sound s (inr e) = inr e

query_complete : (s : GoString) → IsQuery s → Matches query_regex s
query_complete s (inl (rest, e, n)) =
    inl (bytes "?", rest, e, (literal_iff _ _).1 refl, plus_complete _ rest n)
query_complete s (inr e) = inr e

-- The parts of a connection string, in their order.
pub record IsConnectionString (s : GoString) : Type 0 where
  pub scheme : GoString
  pub user : GoString
  pub password : GoString
  pub host : GoString
  pub port : GoString
  pub database : GoString
  pub query : GoString
  pub spelled :
      s
      ≡ bytes "postgres"
        ++ (scheme
            ++ (bytes "://"
                ++ (user
                    ++ (bytes ":"
                        ++ (password
                            ++ (bytes "@"
                                ++ (host
                                    ++ (bytes ":"
                                        ++ (port ++ (bytes "/" ++ (database ++ query)))))))))))
  pub is_scheme : (scheme ≡ bytes "ql") ⊎ (scheme ≡ [])
  pub is_user : IsSome (other_than b':') user
  pub is_password : IsSome (other_than b'@') password
  pub is_host : IsSome (other_than b':') host
  pub is_port : IsSome is_digit port
  pub is_database : IsSome (other_than b'?') database
  pub is_query : IsQuery query

connection_sound : (s : GoString) → Matches connection_string_regex s → IsConnectionString s
connection_sound s m =
    let m0 : Fits connection_string_regex s = record { fits = m } in
    let (t1, e1, m1) = cut_literal (bytes "postgres") m0 in
    let (scheme, t2, e2, is_scheme, m2) = cut_optional (bytes "ql") m1 in
    let (t3, e3, m3) = cut_literal (bytes "://") m2 in
    let (user, t4, e4, is_user, m4) = cut_plus (other_than b':') m3 in
    let (t5, e5, m5) = cut_literal (bytes ":") m4 in
    let (password, t6, e6, is_password, m6) = cut_plus (other_than b'@') m5 in
    let (t7, e7, m7) = cut_literal (bytes "@") m6 in
    let (host, t8, e8, is_host, m8) = cut_plus (other_than b':') m7 in
    let (t9, e9, m9) = cut_literal (bytes ":") m8 in
    let (port, t10, e10, is_port, m10) = cut_plus is_digit m9 in
    let (t11, e11, m11) = cut_literal (bytes "/") m10 in
    let (database, query, e12, is_database, m12) = cut_plus (other_than b'?') m11 in
    record {
      scheme = scheme;
      user = user;
      password = password;
      host = host;
      port = port;
      database = database;
      query = query;
      spelled = continued _ e1 (
          continued _ e2 (
            continued _ e3 (
              continued _ e4 (
                continued _ e5 (
                  continued _ e6 (
                    continued _ e7 (
                      continued _ e8
                        (continued _ e9 (continued _ e10 (continued _ e11 e12))))))))));
      is_scheme = is_scheme;
      is_user = is_user;
      is_password = is_password;
      is_host = is_host;
      is_port = is_port;
      is_database = is_database;
      is_query = IsQuery-sound query m12.fits;
    }

connection_complete : (s : GoString) → IsConnectionString s → Matches connection_string_regex s
connection_complete s v =
    let queried : Fits query_regex v.query = record { fits = query_complete v.query v.is_query } in
    let stored = then_literal (bytes "/") (then_plus (other_than b'?') v.is_database queried) in
    let listened = then_literal (bytes ":") (then_plus is_digit v.is_port stored) in
    let hosted = then_literal (bytes "@") (then_plus (other_than b':') v.is_host listened) in
    let secret = then_literal (bytes ":") (then_plus (other_than b'@') v.is_password hosted) in
    let named = then_literal (bytes "://") (then_plus (other_than b':') v.is_user secret) in
    let whole = then_literal (bytes "postgres") (then_optional (bytes "ql") v.is_scheme named) in
    subst (Matches connection_string_regex) (sym v.spelled) whole.fits

-- A string is accepted exactly when it is "postgres" or "postgresql", "://", a user, ":", a
-- password, "@", a host, ":", a port in digits, "/", a database and possibly "?" and more, where the
-- user and the host hold no ":", the password no "@", the database no "?", what follows the "?" no
-- line break, and none of these parts is empty.
pub is_valid_postgres_connection_string_iff :
    (s : GoString) → (is_valid_postgres_connection_string s ≡ true) ↔ IsConnectionString s
unfolding is_valid_postgres_connection_string
is_valid_postgres_connection_string_iff s = (
  λ h. connection_sound s ((matches_iff connection_string_regex s).0 h),
  λ v. (matches_iff connection_string_regex s).1 (connection_complete s v),
)
