-- ===== src/Grove/Driver.antt =====
-- Connecting to Postgres: NewGrovePostgresDriver of postgres/grove/driver.go. What pgxpool answers is
-- a parameter: the reading of the connection string, the making of a pool and the ping. A call
-- returns the pool or the error, and what it has done to pools, in order.
use path_external_auth_serve.Base.{
  GoString, bytes, Result, ok, err, Option, none, some, List, [], ◌∷◌, ◌++◌, ◌≡◌, ◌↔◌, inl, inr,
  refl, ap, subst, if◌then◌else◌, Bool-cases, Option-cases, ◌⊎◌, sym, ◌∙◌,
}
use path_external_auth_serve.Grove.Connection.{
  is_valid_postgres_connection_string, is_valid_postgres_connection_string_iff, IsConnectionString,
}

pub record Pgxpool (Config Pool : Type 0) : Type 0 where
  pub parse_config : GoString → Result Config
  pub new_with_config : Config → Result Pool
  -- an error, also where the five seconds are over
  pub ping : Pool → Option GoString

pub data PoolEvent (Pool : Type 0) : Type 0 where
  pool_made pool_closed : Pool → PoolEvent Pool

pub pair_of : {A B : Type 0} → {p : A × B} → {x : A} → p.0 ≡ x → p ≡ (x, p.1)
pair_of {p = p} h = rw h refl

module _ {Config Pool : Type 0} (pg : Pgxpool Config Pool) where
  abbrev pub Connecting : Type 0
  Connecting = Result Pool × List (PoolEvent Pool)

  -- from the outcome of the ping on
  unfoldable pub after_ping : Pool → Option GoString → Connecting
  after_ping pool (some message) =
      (err (bytes "failed to ping database: " ++ message), pool_closed pool ∷ [])
  after_ping pool none = (ok pool, [])

  unfoldable pub after_pool : Result Pool → Connecting
  unfolding after_ping
  after_pool (err message) = (err (bytes "pgxpool.NewWithConfig: " ++ message), [])
  after_pool (ok pool) =
      let (result, events) = after_ping pool (pg.ping pool) in (result, pool_made pool ∷ events)

  unfoldable pub after_config : Result Config → Connecting
  unfolding after_pool
  after_config (err message) = (err message, [])
  after_config (ok config) = after_pool (pg.new_with_config config)

  unfoldable pub new_grove_postgres_driver : GoString → Connecting
  unfolding after_config is_valid_postgres_connection_string
  new_grove_postgres_driver connection_string =
      if is_valid_postgres_connection_string connection_string
      then after_config (pg.parse_config connection_string)
      else (err (bytes "invalid postgres connection string"), [])

  -- The pool is made, and answers.
  pub record IsConnected (s : GoString) (pool : Pool) : Type 0 where
    pub well_formed : IsConnectionString s
    pub config : Config
    pub read : pg.parse_config s ≡ ok config
    pub made : pg.new_with_config config ≡ ok pool
    pub answers : pg.ping pool ≡ none

  after_ping_ok :
      (first : Pool) (answer : Option GoString) (pool : Pool) (events : List (PoolEvent Pool))
      → after_ping first answer ≡ (ok pool, events)
      → (first ≡ pool) × (answer ≡ none) × (events ≡ [])
  unfolding after_ping
  after_ping_ok first (some m) pool events h = cc h
  after_ping_ok first none pool events h = (cc h, refl, cc h)

  after_pool_ok :
      (result : Result Pool) (pool : Pool) (events : List (PoolEvent Pool))
      → after_pool result ≡ (ok pool, events)
      → (result ≡ ok pool) × (pg.ping pool ≡ none) × (events ≡ pool_made pool ∷ [])
  unfolding after_pool
  after_pool_ok (err m) pool events h = cc h
  after_pool_ok (ok first) pool events h =
      let (same, answers, done) =
        after_ping_ok first (pg.ping first) pool (after_ping first (pg.ping first)).1
          (pair_of (ap (λ p. p.0) h)) in
      (
        ap ok same,
        subst (λ x. pg.ping x ≡ none) same answers,
        sym (ap (λ p. p.1) h)
            ∙ ap (λ x. pool_made x ∷ (after_ping first (pg.ping first)).1) same
            ∙ ap (◌∷◌ (pool_made pool)) done,
      )

  after_config_ok :
      (read : Result Config) (pool : Pool) (events : List (PoolEvent Pool))
      → after_config read ≡ (ok pool, events)
      → (config : Config) × (read ≡ ok config)
        × (pg.new_with_config config ≡ ok pool)
        × (pg.ping pool ≡ none)
        × (events ≡ pool_made pool ∷ [])
  unfolding after_config
  after_config_ok (err m) pool events h = cc h
  after_config_ok (ok config) pool events h =
      let (is, answers, done) = after_pool_ok (pg.new_with_config config) pool events h in
      (config, refl, is, answers, done)

  connected :
      (s : GoString) (pool : Pool) (events : List (PoolEvent Pool))
      → new_grove_postgres_driver s ≡ (ok pool, events)
      → IsConnected s pool × (events ≡ pool_made pool ∷ [])
  unfolding new_grove_postgres_driver
  connected s pool events h = elim (Bool-cases (is_valid_postgres_connection_string s)) [
    | inl valid ↦
        let (config, read, is, answers, done) =
          after_config_ok (pg.parse_config s) pool events (rw valid at h) in
        (
          record {
            well_formed = (is_valid_postgres_connection_string_iff s).0 valid;
            config = config;
            read = read;
            made = is;
            answers = answers;
          },
          done,
        )
    | inr invalid ↦
        let refused : (err (bytes "invalid postgres connection string"), []) ≡ (ok pool, events) =
          rw invalid at h in
        cc refused
  ]

  -- A driver is returned exactly when the connection string is well formed, pgxpool reads it and
  -- makes the pool, and the pool answers the ping; that pool is the only one made, and is open.
  pub new_grove_postgres_driver_iff :
      (s : GoString) (pool : Pool) (events : List (PoolEvent Pool))
      → (new_grove_postgres_driver s ≡ (ok pool, events))
        ↔ (IsConnected s pool × (events ≡ pool_made pool ∷ []))
  unfolding new_grove_postgres_driver
  new_grove_postgres_driver_iff s pool events = (
    connected s pool events,
    λ (c, done).
        rw
          (
            (is_valid_postgres_connection_string_iff s).1 c.well_formed,
            c.read,
            c.made,
            c.answers,
            done,
          )
          refl,
  )

  -- A pool is made and closed again, or none is made.
  abbrev pub LeavesNoPool : List (PoolEvent Pool) → Type 0
  LeavesNoPool events =
      (events ≡ []) ⊎ ((pool : Pool) × (events ≡ pool_made pool ∷ pool_closed pool ∷ []))

  after_pool_err :
      (result : Result Pool) (message : GoString)
      → (after_pool result).0 ≡ err message
      → LeavesNoPool (after_pool result).1
  unfolding after_pool after_ping
  after_pool_err (err m) message h = inl refl
  after_pool_err (ok pool) message h = elim (Option-cases (pg.ping pool)) [
    | inl answers ↦ cc (rw answers at h)
    | inr (m, silent) ↦ inr (pool, rw silent refl)
  ]

  after_config_err :
      (read : Result Config) (message : GoString)
      → (after_config read).0 ≡ err message
      → LeavesNoPool (after_config read).1
  unfolding after_config
  after_config_err (err m) message h = inl refl
  after_config_err (ok config) message h = after_pool_err (pg.new_with_config config) message h

  -- Where the driver is refused, a pool that was made is closed.
  pub refused-LeavesNoPool :
      (s : GoString) (message : GoString)
      → (new_grove_postgres_driver s).0 ≡ err message
      → LeavesNoPool (new_grove_postgres_driver s).1
  unfolding new_grove_postgres_driver
  refused-LeavesNoPool s message h = elim (Bool-cases (is_valid_postgres_connection_string s)) [
    | inl valid ↦ rw valid (after_config_err (pg.parse_config s) message (rw valid at h))
    | inr invalid ↦ inl (rw invalid refl)
  ]
