-- ===== src/Tests/Command.antt =====
-- Runs of the commands.
use go_fibe.Base.{◌≡◌, refl, true, false, none, some, List, [], ◌∷◌, if◌then◌else◌}
use go_fibe.Base.Exec.{ok, err}
use go_fibe.Strings.{GoString, str, ◌==◌}
use go_fibe.Config.Env.{Getenv}
use go_fibe.App.Retry.{waited, expired, last}
use go_fibe.App.Startup.{Holding, Start, redis_failed}
use go_fibe.Jobs.Worker
use go_fibe.Db.Engine.{answered}
use go_fibe.Server.Serving
use go_fibe.Command.{Surroundings, not_started, run}
use go_fibe.Command.Closing.{run_closes}
use go_fibe.Tests.Fixtures.{plain_uuid}
use go_fibe.Tests.World.{store, redis, outside}

-- PostgreSQL answers at the second attempt, and Redis not within the deadline.
abbrev start : Start
start = record {
  dials =
      (record { parses = λ url. true; makes_pool = λ cfg. true; answers = false }, waited)
      ∷ (record { parses = λ url. true; makes_pool = λ cfg. true; answers = true }, waited)
      ∷ [];
  parses_redis = λ url. true;
  pings = (false, waited) ∷ (false, expired) ∷ [];
  store = store;
  redis = redis;
  queue = record { tasks = []; calls = 0; fate = λ n. answered };
  outside = outside;
}

abbrev surroundings : Surroundings (Unit {0})
surroundings = record {
  start = start;
  target = record { database = tt; applied = []; calls = 0; fate = λ n. answered };
  run_sql = λ sql d. ok tt;
  read_file = λ file. none;
  files = some [];
  hash = some (str "$argon2id$");
  serve_events = [];
  serve_ending = Serving.server_closed;
  worker_signals = [];
  worker_ending = Worker.cancelled;
}

abbrev getenv : Getenv
getenv key =
    if key == str "DATABASE_URL"
    then str "postgres://db"
    else if key == str "REDIS_URL"
    then str "redis://cache"
    else []

abbrev nothing_open : Holding
nothing_open = record { pools = 0; clients = 0; queues = 0 }

abbrev args : List GoString
args = str "go-fibe" ∷ str "setup" ∷ []

run_closes_example :
    (run surroundings args getenv nothing_open).ended.holding
    ≡ record { pools = 0; clients = 1; queues = 0 }
unfolding run go_fibe.Config.Env.from_env go_fibe.Strings.is_empty ◌==◌ go_fibe.Strings.trim_space
    go_fibe.App.Startup.new go_fibe.App.Retry.retry go_fibe.App.Startup.connect
    go_fibe.App.Startup.ping
run_closes_example =
    run_closes surroundings nothing_open args getenv (err (not_started (redis_failed (last tt))))
      refl
