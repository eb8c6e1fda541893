-- ===== src/Command/Endings.antt =====
-- What Serve and RunWorker leave open.
use go_fibe.Base.{◌≡◌, refl, Bool, true, false, Option, none, some, List, if◌then◌else◌}
use go_fibe.Base.Exec.{Result, ok, err}
use go_fibe.Config.Env.{RedisClientOpt, redis_asynq_opt}
use go_fibe.Db.Schema.{Uuid}
use go_fibe.App.{App}
use go_fibe.App.Startup.{
  Outcome, pending, panicked, returned, Ended, Holding, open_pool, open_client, open_queue,
  NewError, redis_failed, store_failed, bad_redis_url, bad_asynq_url, Started,
}
use go_fibe.App.Leaks.{holding_after, StartLeaves, close_all}
use go_fibe.Jobs.Worker.{Signal, WorkerError, run_worker, work, with_opt}
use go_fibe.Jobs.Worker
use go_fibe.Server.Serving.{ServeError, serve, serving}
use go_fibe.Server.Serving
use go_fibe.System.{System, Event}
use go_fibe.System

abbrev pub is_redis_failure : NewError → Bool
is_redis_failure (redis_failed e) = true
is_redis_failure (store_failed e) = false
is_redis_failure bad_redis_url = false
is_redis_failure bad_asynq_url = false

abbrev pub serve_leak : Result ServeError (Unit {0}) → Bool
serve_leak (err (Serving.not_started e)) = is_redis_failure e
serve_leak _ = false

abbrev pub worker_leak : Result WorkerError (Unit {0}) → Bool
worker_leak (err (Worker.not_started e)) = is_redis_failure e
worker_leak _ = false

abbrev pub left_open : Bool → Holding → Holding
left_open leak h = if leak then open_client h else h

module _ {E : Type 0} (leak : Result E (Unit {0}) → Bool) (h : Holding) where
  -- A command that has returned holds nothing more than before, a leak aside.
  abbrev pub ClosesAt : Outcome E → Holding → Type 0
  ClosesAt pending h' = Unit {0}
  ClosesAt panicked h' = Unit {0}
  ClosesAt (returned r) h' = h' ≡ left_open (leak r) h

  abbrev pub Closes : Ended E → Type 0
  Closes e = ClosesAt e.outcome e.holding

abbrev pub opened : Holding → Holding
opened h = open_queue (open_client (open_pool h))

pub start_left :
    (h h' : Holding) (e : NewError)
    → h' ≡ holding_after (err e) h
    → h' ≡ left_open (is_redis_failure e) h
start_left h h' (redis_failed e) l = l
start_left h h' (store_failed e) l = l
start_left h h' bad_redis_url l = l
start_left h h' bad_asynq_url l = l

pub serve_answer : (ending : Serving.Ending) → serve_leak (Serving.answer_of ending) ≡ false
serve_answer (Serving.cancelled true) = refl
serve_answer (Serving.cancelled false) = refl
serve_answer Serving.server_closed = refl
serve_answer Serving.failed = refl

pub worker_answer : (ending : Worker.Ending) → worker_leak (Worker.answer_of ending) ≡ false
worker_answer Worker.cancelled = refl
worker_answer (Worker.stopped true) = refl
worker_answer (Worker.stopped false) = refl

module _ ⦃u : Uuid⦄ (h : Holding) where
  pub served-Closes :
      (ending : Serving.Ending) (o : Option System)
      → Closes serve_leak h (Serving.finished ending (opened h) o)
  served-Closes ending none = tt
  served-Closes ending (some x) = rw (serve_answer ending) (close_all h)

  pub serving-Closes :
      (events : List Event) (ending : Serving.Ending) (x : Started)
      → StartLeaves h x
      → Closes serve_leak h (serving events ending x)
  serving-Closes events ending (none, h') l = tt
  serving-Closes events ending (some (err e), h') l = start_left h h' e l
  serving-Closes events ending (some (ok a), h') l =
      rw l (served-Closes ending (System.run events (Serving.started a)))

  pub finished-Closes :
      (ending : Worker.Ending) (o : Option App)
      → Closes worker_leak h (Worker.finished ending (opened h) o)
  finished-Closes ending none = tt
  finished-Closes ending (some a) = rw (worker_answer ending) (close_all h)

  pub with_opt-Closes :
      (signals : List Signal) (ending : Worker.Ending) (a : App) (o : Option RedisClientOpt)
      → Closes worker_leak h (with_opt signals ending a (opened h) o)
  with_opt-Closes signals ending a none = close_all h
  with_opt-Closes signals ending a (some opt) =
      finished-Closes ending (Worker.schedule_due_monitor_checks signals a)

  pub work-Closes :
      (signals : List Signal) (ending : Worker.Ending) (x : Started)
      → StartLeaves h x
      → Closes worker_leak h (work signals ending x)
  work-Closes signals ending (none, h') l = tt
  work-Closes signals ending (some (err e), h') l = start_left h h' e l
  work-Closes signals ending (some (ok a), h') l =
      rw l (with_opt-Closes signals ending a (redis_asynq_opt a.outside.net a.config))
