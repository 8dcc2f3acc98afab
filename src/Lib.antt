-- ===== src/Lib.antt =====
-- A verification library for PEAS, the external authorization server of PATH. Envoy asks it about
-- every request before it is forwarded: the server finds the portal app that the request names,
-- checks the app's API key, and checks that the app's account is within its monthly limit.
--
-- The program's parts, and the files that model them:
--   * auth/auth_handler.go, the Check call: Auth/Handler.antt (`check` is Check, split where the
--     source returns early; `check_http`, `check_portal_app_id`, `check_portal_app`,
--     `check_authorization` and `check_limit` are its successive parts), Auth/Messages.antt (the
--     messages of Envoy and the two builders of responses), Auth/Names.antt (the constants).
--     Auth/Handler/View.antt and Cases.antt list the ways in which a call ends, and
--     Auth/Handler/Answers.antt spells its answers field by field.
--   * auth/authorizer.go and auth/authorizer_api_key.go: Auth/Authorizer.antt.
--   * auth/portal_app_id_extractor.go: Auth/Extractor.antt.
--   * store/portal_app.go: PortalApp.antt; store/portal_app_store.go and store/data_source.go:
--     Store.antt, whose state is the record of the two maps.
--   * postgres/grove/portal_app.go, GetPortalApps of postgres/grove/driver.go and the generated
--     query of postgres/grove/sqlc: Grove.antt. isValidPostgresConnectionString and its pattern:
--     Grove/Connection.antt; NewGrovePostgresDriver: Grove/Driver.antt. The tables of
--     postgres/grove/sqlc/grove_schema.sql and what the query asks of them: Grove/Query.antt.
--   * env.go: Env.antt.
--   * dwh/driver.go: Dwh.antt; the table of relays and what the query asks of it: Dwh/Query.antt.
--     Sql.antt has the clauses of SQL that the two queries use.
--   * ratelimit/ratelimit_store.go: RateLimit.antt, whose state is the map of limited accounts.
--   * metrics/auth_metrics.go: Metrics.antt, where each call of the Prometheus client is a value
--     that the operations return in order. metrics/server.go and metrics/pprof.go:
--     Metrics/Server.antt; Metrics/Health.antt tells what the health endpoint answers, Metrics/Sizes.antt
--     what the gauge of the store sizes shows.
--   * Base.antt and its children carry what is shared: Go's strings as lists of bytes, signed
--     integers, maps as association lists with distinct keys, errors, and runs that may panic.
--     Http.antt carries the type Header of net/http, Json.antt the strings and structs that
--     encoding/json writes, with a reader of its own in Json/Reader.antt, Base/Regex.antt the
--     regular expressions that are used, and Base/Atoi.antt strconv.Atoi.
--   * main.go: Main.antt, where `main` is cut at each outcome that it waits for (`after_env`,
--     `after_postgres` and so on), and a run is the list of its events and its end
--     (Main/Effects.antt). Main/Process.antt has the process around `main`, which a panic of a
--     goroutine ends at a moment that a schedule gives; Main/Serving.antt tells when it serves, and
--     what it leaves open, and Main/Decisions which requests are let through by the stores that it
--     makes, up to Main/Decisions/ByTables.antt, which tells it from the tables of both databases.
--   * the wiring of the two stores and the handler, and the goroutines that run beside each other:
--     System.antt, a relation of steps, one for what happens under one lock.
--     System/Sequential.antt ties it to the operations taken as a whole, and System/Service.antt
--     has, for those, the service without maps that the two stores and the handler promise.
--
-- How they interact: main.go hands the portal app store and the rate limit store to the handler
-- through the interfaces of auth/auth_handler.go (the records PortalAppStore and RateLimitStore), the data
-- source to the portal app store, and the portal app store and the warehouse to the rate limit
-- store. The two stores refresh themselves in the background: a loop over a ticker is a function
-- over the list of what its ticks bring, of any length. All loops of the program recurse on
-- the list that they read, so no fuel is needed; the decimal print of a number n goes on for n
-- rounds, more than it has digits.
--
-- Strings are lists of bytes, and a literal is spelled by `bytes`. Go's integers are taken as
-- mathematical integers: the program only compares them, and converts from int32 to int64;
-- strconv.Atoi keeps to the range of 64 bits. The SUM of BigQuery, which fails beyond 64 bits, is
-- taken without that bound. Both databases give the rows of a query in any order; that they run the
-- SQL as documented is a hypothesis of the theorems that speak of tables.
-- The iteration over a Go map comes in any order: a map is a list of its entries, and the theorems
-- hold for every such list. A pointer is what it points at, since no shared object is written
-- through a pointer after it is made.
--
-- Arguments of the model: what Postgres answers (Cursor) and its client (Pgxpool), what BigQuery
-- answers, the floats that Prometheus takes, the time that a call took, the environment, and how
-- time.ParseDuration reads a duration and strconv.Quote prints a text: both are taken as they come,
-- since the program only compares what the one returns with zero and puts the other's text in an
-- error. What the outside world answers to main.go is the record World. Not modelled: logging, what
-- net/http and gRPC do with the handlers that they are given, the handlers of Prometheus and of
-- package pprof, and the generated glue of sqlc. The client of Prometheus panics on a label that is
-- not UTF-8; labels come from messages of protobuf and columns of Postgres, which are, and no such
-- panic is modelled. A mutex is not modelled by itself: a step of System.antt is what is done under
-- one, so a lock that is kept is not seen. The Close methods only call the clients, and are the
-- event `closed` of a run.
pub mod Base
pub mod Sql
pub mod PortalApp
pub mod Metrics
pub mod Store
pub mod Grove
pub mod Dwh
pub mod RateLimit
pub mod Http
pub mod Json
pub mod Auth
pub mod System
pub mod Env
pub mod Main
mod Tests
