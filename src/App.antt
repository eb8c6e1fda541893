-- ===== src/App.antt =====
-- internal/app/app.go: the shared runtime, and how the components' calls run in it.
pub mod Health
pub mod Leaks
pub mod Retry
pub mod Startup
use go_fibe.Base.{ℕ, suc, ℤ, ◌≡◌, Bool, true, Option, none, some, List, [], ◌∷◌, ◌++◌}
use go_fibe.Base.Exec.{Result, ok, err, Exec}
use go_fibe.Strings.{GoString, is_utf8}
use go_fibe.Ability.{AbilityError}
use go_fibe.Config.{Config}
use go_fibe.Event.{Bus, publish}
use go_fibe.Models.{Dashboard}
use go_fibe.Net.{Net}
use go_fibe.Redis
use go_fibe.Redis.{Redis, RedisError, Command}
use go_fibe.Security.{UrlError}
use go_fibe.Db.Schema.{DbError}
use go_fibe.Db.Engine.{Store, Action, Fate, answered, refused, unacked}

-- An asynq task: a type and a payload.
pub record Task : Type 0 where
  pub type : GoString
  pub payload : GoString

-- asynq's queue, as the client sees it.
pub record Queue : Type 0 where
  pub tasks : List Task
  pub calls : ℕ
  pub fate : ℕ → Fate

-- What a request to a monitored site comes to, with its latency in milliseconds.
pub data Fetch : Type 0 where
  failed : ℕ → Fetch
  responded : ℕ → ℤ → Fetch

-- The payload of a task, before it becomes JSON.
pub record Payload : Type 0 where
  pub job_run_id : GoString
  pub monitor_id : GoString

-- What lies outside: name resolution, the monitored sites, and encoding/json at the payload type,
-- which reads back what it has written of well-formed texts.
pub record Outside : Type 0 where
  pub net : Net
  -- http.NewRequestWithContext accepts the method and the URL.
  pub accepts_request : GoString → GoString → Bool
  -- client.Do
  pub fetch : GoString → GoString → Fetch
  pub encode : Payload → GoString
  pub decode : GoString → Option Payload
  -- encoding/json at the dashboard
  pub encode_dashboard : Dashboard → Option GoString
  pub decode_dashboard : GoString → Option Dashboard
  pub decode-encode :
      (p : Payload)
      → is_utf8 p.job_run_id ≡ true
      → is_utf8 p.monitor_id ≡ true
      → decode (encode p) ≡ some p

pub record App : Type 0 where
  pub config : Config
  pub store : Store
  pub redis : Redis
  pub events : Bus
  pub queue : Queue
  pub outside : Outside
  -- A call has panicked: what the handler comes to from there on is no state of the program.
  pub panicked : Bool

pub data AppError : Type 0 where
  db : DbError → AppError
  redis_failed : RedisError → AppError
  queue_failed : AppError
  ability : AbilityError → AppError
  url : UrlError → AppError
  -- errors.New, and fmt.Errorf without a wrapped error
  message : GoString → AppError
  -- A payload that is no JSON of its type.
  bad_payload : AppError

abbrev pub AppAction : Type 0 → Type 0
AppAction A = Exec App AppError A

module _ {A : Type 0} where
  abbrev pub map_err {κ} : {E : Type κ} → (E → AppError) → Result E A → Result AppError A
  map_err f (ok a) = ok a
  map_err f (err e) = err (f e)

  -- A call of rt.Store
  unfoldable pub on_store : Action A → AppAction A
  on_store m a = let (r, s) = m a.store in (map_err db r, record a { store = s })

  -- A call of rt.Redis
  unfoldable pub on_redis : Command A → AppAction A
  on_redis m a = let (r, x) = m a.redis in (map_err redis_failed r, record a { redis = x })

  -- `_ = f()`: the error is dropped.
  unfoldable pub discard : AppAction A → AppAction (Unit {0})
  discard m a = (ok tt, (m a).1)

  abbrev pub error_of : Result AppError A → Option AppError
  error_of (ok r) = none
  error_of (err e) = some e

  -- `err := f()`, for an error that the code looks at.
  unfoldable pub attempt : AppAction A → AppAction (Option AppError)
  attempt m a = let (r, b) = m a in (ok (error_of r), b)

abbrev pub with_bus : App → Option Bus → App
with_bus a none = record a { panicked = true }
with_bus a (some b) = record a { events = b }

abbrev pub notify : GoString → Result RedisError (Unit {0}) → App → Result AppError (Unit {0}) × App
notify value (ok u) b = (ok tt, b)
notify value (err e) b = (ok tt, with_bus b (publish value b.events))

-- PublishEvent of internal/jobs/jobs.go: the local bus gets what Redis did not take.
unfoldable pub publish_event : GoString → AppAction (Unit {0})
publish_event value a =
    let (r, x) = Redis.publish value a.redis in notify value r (record a { redis = x })

abbrev push : Fate → Task → Queue → Queue
push answered t q = record q { tasks = q.tasks ++ t ∷ []; calls = suc q.calls }
push unacked t q = record q { tasks = q.tasks ++ t ∷ []; calls = suc q.calls }
push refused t q = record q { calls = suc q.calls }

abbrev pushed : Fate → Result AppError (Unit {0})
pushed answered = ok tt
pushed unacked = err queue_failed
pushed refused = err queue_failed

-- AsynqClient.EnqueueContext
unfoldable pub enqueue_task : Task → AppAction (Unit {0})
enqueue_task t a =
    let fate = a.queue.fate a.queue.calls in (pushed fate, record a { queue = push fate t a.queue })
