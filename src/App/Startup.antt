-- ===== src/App/Startup.antt =====
-- Connect of internal/db/store.go, and New and Close of internal/app/app.go.
use go_fibe.Base.{ℕ, suc, ℤ, pos, ◌-◌, Bool, true, false, Option, none, some, List, if◌then◌else◌}
use go_fibe.Base.Exec.{Result, ok, err, Exec}
use go_fibe.Strings.{GoString}
use go_fibe.Config.{Config}
use go_fibe.Config.Env.{RedisClientOpt, redis_asynq_opt}
use go_fibe.Event.{new_bus}
use go_fibe.Redis.{Redis}
use go_fibe.Db.Engine.{Store}
use go_fibe.App.{App, Queue, Outside}
use go_fibe.App.Retry.{Wake, RetryError, Pending, retry}

-- What the process holds open: pgx pools, Redis clients and asynq clients.
pub record Holding : Type 0 where
  pub pools : ℕ
  pub clients : ℕ
  pub queues : ℕ

abbrev pub open_pool : Holding → Holding
open_pool h = record h { pools = suc h.pools }

abbrev pub close_pool : Holding → Holding
close_pool h = record h { pools = h.pools - 1 }

abbrev pub open_client : Holding → Holding
open_client h = record h { clients = suc h.clients }

abbrev pub close_client : Holding → Holding
close_client h = record h { clients = h.clients - 1 }

abbrev pub open_queue : Holding → Holding
open_queue h = record h { queues = suc h.queues }

abbrev pub close_queue : Holding → Holding
close_queue h = record h { queues = h.queues - 1 }

-- pgxpool.Config, as far as Connect sets it; durations are in nanoseconds.
pub record PoolConfig : Type 0 where
  pub max_conns : ℤ
  pub min_conns : ℤ
  pub health_check_period : ℤ
  pub connect_timeout : ℤ

pub data ConnectError : Type 0 where
  bad_database_url no_pool no_answer : ConnectError

-- What a call of Connect meets.
pub record Dial : Type 0 where
  -- pgxpool.ParseConfig, pgxpool.NewWithConfig and pool.Ping succeed.
  pub parses : GoString → Bool
  pub makes_pool : PoolConfig → Bool
  pub answers : Bool

abbrev pub pool_config : Config → PoolConfig
pool_config cfg = record {
  max_conns = cfg.db_max_connections;
  min_conns = cfg.db_min_connections;
  health_check_period = pos 30000000000;
  connect_timeout = cfg.db_acquire_timeout;
}

abbrev pub pinged : Bool → Exec Holding ConnectError (Unit {0})
pinged true h = (ok tt, h)
pinged false h = (err no_answer, close_pool h)

unfoldable pub connect : Config → Dial → Exec Holding ConnectError (Unit {0})
connect cfg d h =
    if d.parses cfg.database_url
    then (if d.makes_pool (pool_config cfg)
        then pinged d.answers (open_pool h)
        else (err no_pool, h))
    else (err bad_database_url, h)

-- redisClient.Ping
unfoldable pub ping : Bool → Exec Holding (Unit {0}) (Unit {0})
ping true h = (ok tt, h)
ping false h = (err tt, h)

pub data NewError : Type 0 where
  store_failed : RetryError ConnectError → NewError
  bad_redis_url : NewError
  redis_failed : RetryError (Unit {0}) → NewError
  bad_asynq_url : NewError

-- What New meets, and the servers that it connects to.
pub record Start : Type 0 where
  pub dials : List (Dial × Wake)
  -- redis.ParseURL succeeds.
  pub parses_redis : GoString → Bool
  pub pings : List (Bool × Wake)
  pub store : Store
  pub redis : Redis
  pub queue : Queue
  pub outside : Outside

abbrev pub Started : Type 0
Started = Option (Result NewError App) × Holding

abbrev pub runtime : Config → Start → App
runtime cfg s = record {
  config = cfg;
  store = s.store;
  redis = s.redis;
  events = new_bus;
  queue = s.queue;
  outside = s.outside;
  panicked = false;
}

abbrev pub with_queue : Config → Start → Option RedisClientOpt → Holding → Started
with_queue cfg s none h = (some (err bad_asynq_url), close_client (close_pool h))
with_queue cfg s (some opt) h = (some (ok (runtime cfg s)), open_queue h)

-- After the pings of Redis; the client stays open if they fail.
abbrev pub with_redis : Config → Start → Pending (Unit {0}) (Unit {0}) × Holding → Started
with_redis cfg s (none, h) = (none, h)
with_redis cfg s (some (err e), h) = (some (err (redis_failed e)), close_pool h)
with_redis cfg s (some (ok x), h) = with_queue cfg s (redis_asynq_opt s.outside.net cfg) h

abbrev pub with_store : Config → Start → Pending ConnectError (Unit {0}) × Holding → Started
with_store cfg s (none, h) = (none, h)
with_store cfg s (some (err e), h) = (some (err (store_failed e)), h)
with_store cfg s (some (ok x), h) =
    if s.parses_redis cfg.redis_url
    then with_redis cfg s (retry ping s.pings (open_client h))
    else (some (err bad_redis_url), close_pool h)

-- `none` while one of its retry loops is still waiting.
unfoldable pub new : Config → Start → Holding → Started
new cfg s h = with_store cfg s (retry (connect cfg) s.dials h)

-- Close of a runtime that New returned, whose clients are not nil.
unfoldable pub close : Holding → Holding
close h = close_pool (close_client (close_queue h))

-- What a command comes to.
pub data Outcome (E : Type 0) : Type 0 where
  -- It has not returned yet.
  pending : Outcome E
  panicked : Outcome E
  returned : Result E (Unit {0}) → Outcome E

-- The outcome, what is held open then, and the runtime where there was one.
pub record Ended (E : Type 0) : Type 0 where
  pub outcome : Outcome E
  pub holding : Holding
  pub app : Option App
