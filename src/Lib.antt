-- ===== src/Lib.antt =====
-- The uptime console go-fibe: a Go server that watches web sites, with PostgreSQL for its rows,
-- Redis for sessions, rate limits, caches and events, and asynq for background jobs.
--
-- How the parts interact. cmd/go-fibe reads the configuration and starts a web server and a worker.
-- A request passes the middlewares (CORS, host guard, rate limit, security headers) and reaches the
-- session handlers or GraphQL. The resolvers ask the ability rules, check their input, call the store,
-- clear the cache and publish an event. Jobs are rows of the store and tasks of the queue; the worker
-- performs them, and the check of a monitor records an event, the monitor's status and its incident in
-- one transaction. Events go through Redis to the local bus of each server, or straight to the local
-- bus when Redis does not take them.
--
-- Which file models which part:
-- - Base: shared helpers. Tests and branching, lists, integers, sorting (also by a key), counting, upserts, and
--   Base/Exec, the shape of a Go function that changes shared state and may return an error.
-- - Strings: Go's strings as lists of code points with stray bytes; Equality, Atoi, Itoa, Base64,
--   Trimming and Cutting with the lemmas on them.
-- - Models: internal/models/models.go.
-- - Ability: internal/ability/ability.go; Ability/Roles has the table of grants.
-- - Net, Http, Redis: what the program uses of net/url, net and net/netip (a record of parameters), of
--   net/http, and the commands that it sends to a Redis server, which is a parameter. Redis/Laws is
--   what the program relies on of the server, Redis/Entries what follows for a later GET.
-- - Cache: internal/cache/cache.go.
-- - Config: internal/config/config.go; Config/Env is FromEnv, Config/Validation what it accepts.
-- - Event: internal/event/bus.go. Channels live on a heap, because the bus and a subscriber share them,
--   and a panic is a result. Event/Invariant, Event/Delivery and Event/History.
-- - Db: internal/db/store.go over migrations/202605070001_init.sql. Db/Schema has the tables and their
--   constraints, Db/Engine a statement and a transaction, with a server that may refuse a call or do it
--   without the client learning of it; Db/Incidents, Db/Monitors, Db/CheckEvents, Db/Runs, Db/Users
--   and Db/Dashboard have one function for each operation of the store. Db/Keeps and Db/Effects say
--   when a statement keeps a predicate and what it writes; Db/Consistency, Db/History, Db/Recording,
--   Db/Checks, Db/Seeded, Db/Seeding and Db/Due use them. Db/Rows has the columns of the SELECT lists and the scans of rows.
-- - Security: internal/security/security.go; Security/Limiter is its RateLimit. Security/MonitorUrl and
--   Security/RateLimit.
-- - App: the shared runtime of internal/app/app.go as one state, through which a call of the store or
--   of Redis runs, and PublishEvent and the queueing of a task. App/Retry is its retry loop, App/Startup
--   New, Close and Connect with what they hold open, App/Leaks what they leave open. App/Health says
--   when an action keeps the tables consistent and the bus sound; the Health modules of AppAuth, Jobs,
--   Graph and Server apply it to theirs, and System/Streams and System/Health put them together.
-- - AppAuth: internal/appauth/auth.go; AppAuth/Tokens has its tokens and keys. AppAuth/Sessions.
-- - Jobs: internal/jobs/jobs.go; Jobs/Observing is what CheckMonitor finds out, Jobs/Worker is RunWorker
--   with the scheduler. Jobs/Queueing, Jobs/Handling, Jobs/Running, Jobs/Checking and Jobs/Scheduling say what they do.
-- - Maintenance: internal/maintenance/maintenance.go.
-- - Graph: graph/schema.resolvers.go; Graph/Input is graph/helpers.go with the inputs of
--   graph/model/models_gen.go. Graph/Access has the operations as one type; Graph/Untouched,
--   Graph/Reading, Graph/Creating, Graph/Freshness and Graph/Validation say what they do.
--   Graph/Pointers has the slices of pointers of graph/helpers.go.
-- - Server: the middlewares and small handlers of internal/server/server.go, over the runtime with the
--   open event streams. Server/Events is the event stream, Server/Routes the routes with what is behind
--   them, Server/Serving is Serve; Server/Pipeline, Server/Frames and Server/Ordering say what they do.
-- - System: a server and a worker over one PostgreSQL and one Redis, as a sequence of events.
-- - Command: cmd/go-fibe/main.go; Command/Endings and Command/Closing.
-- - Migrate: internal/db/migrate.go; Migrate/Again.
-- - Tests: concrete runs.
--
-- Conventions. Numbers are natural numbers; Go's int is an integer without a bound except where the
-- code relies on wrapping (strconv, durations and the fingerprint of the secret, which are written out).
-- A time is a number of microseconds. A clock and the fates of the calls to PostgreSQL, Redis and the
-- queue are functions of the number of the call, so that a theorem holds for every sequence of failures.
-- Every loop runs over a list, so no fuel is needed. Identifiers are an abstract scheme (Uuid): a cast
-- that is idempotent, and draws that do not repeat. PostgreSQL is modelled by what the SQL of the
-- source says. Redis, the parsers of net/url, DNS, the monitored sites, encoding/json (at the payload
-- of a task and at the dashboard), argon2id, the random bytes, the file system, the effect of a
-- migration's SQL, chi's matching of routes, and which fields gqlgen calls for a request are parameters.
-- In System each request, task, tick and turn of an event stream runs to its end before the next one
-- starts.
--
-- Not modelled: the code that gqlgen generates, chi's own middlewares, the pools and clients of pgx,
-- go-redis and asynq but for how many are open, how the calls of concurrent handlers interleave (but for
-- those of the store and of the bus), and log lines.
mod Base
pub mod Strings
pub mod System
pub mod Command
pub mod Models
pub mod Ability
pub mod Net
pub mod Config
pub mod Event
pub mod Db
pub mod Redis
pub mod Cache
pub mod Http
pub mod Security
pub mod App
pub mod AppAuth
pub mod Jobs
pub mod Maintenance
pub mod Graph
pub mod Server
pub mod Migrate
mod Tests
