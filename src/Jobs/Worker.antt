-- ===== src/Jobs/Worker.antt =====
-- RunWorker and scheduleDueMonitorChecks of internal/jobs/jobs.go.
use go_fibe.Base.{
  ℤ, pos, ltb_ℤ, Bool, true, false, Option, none, some, List, [], ◌∷◌, if◌then◌else◌,
}
use go_fibe.Base.Exec.{Result, ok, err}
use go_fibe.Config.{Config}
use go_fibe.Config.Env.{RedisClientOpt, redis_asynq_opt}
use go_fibe.Db.Schema.{Uuid}
use go_fibe.App.{App}
use go_fibe.App.Startup.{
  pending, panicked, returned, Ended, Holding, NewError, Start, Started, new, close,
}
use go_fibe.Jobs.{enqueue_due_monitor_checks}

pub data WorkerError : Type 0 where
  not_started : NewError → WorkerError
  bad_asynq : WorkerError
  server_failed : WorkerError

-- What the select of the scheduler takes, and what the other goroutines do between two of its turns.
pub data Signal : Type 0 where
  -- <-ctx.Done()
  done : Signal
  -- <-ticker.C
  tick : Signal
  meanwhile : (App → App) → Signal

-- What ends the worker.
pub data Ending : Type 0 where
  -- <-ctx.Done()
  cancelled : Ending
  -- server.Run returned, without an error or with one.
  stopped : Bool → Ending

abbrev pub answer_of : Ending → Result WorkerError (Unit {0})
answer_of cancelled = ok tt
answer_of (stopped true) = ok tt
answer_of (stopped false) = err server_failed

-- time.NewTicker panics for an interval that is not positive.
abbrev pub ticks_at : ℤ → Bool
ticks_at interval = ltb_ℤ (pos 0) interval

module _ ⦃u : Uuid⦄ where
  -- The loop of scheduleDueMonitorChecks: an error is logged, and the loop goes on.
  unfoldable pub schedule_loop : List Signal → App → App
  schedule_loop [] a = a
  schedule_loop (done ∷ rest) a = a
  schedule_loop (tick ∷ rest) a = schedule_loop rest (enqueue_due_monitor_checks a).1
  schedule_loop (meanwhile f ∷ rest) a = schedule_loop rest (f a)

  unfoldable pub schedule_due_monitor_checks : List Signal → App → Option App
  schedule_due_monitor_checks signals a =
      if ticks_at a.config.monitor_check_interval then some (schedule_loop signals a) else none

  abbrev pub finished : Ending → Holding → Option App → Ended WorkerError
  finished ending h none = record { outcome = panicked; holding = h; app = none }
  finished ending h (some a) = record {
    outcome = returned (answer_of ending);
    holding = close h;
    app = some a;
  }

  -- The tasks that the mux handles are among what happens meanwhile. A panic of the scheduler's
  -- goroutine ends the process, before the deferred Close.
  abbrev pub with_opt :
      List Signal → Ending → App → Holding → Option RedisClientOpt → Ended WorkerError
  with_opt signals ending a h none = record {
    outcome = returned (err bad_asynq);
    holding = close h;
    app = some a;
  }
  with_opt signals ending a h (some opt) = finished ending h (schedule_due_monitor_checks signals a)

  abbrev pub work : List Signal → Ending → Started → Ended WorkerError
  work signals ending (none, h) = record { outcome = pending; holding = h; app = none }
  work signals ending (some (err e), h) = record {
    outcome = returned (err (not_started e));
    holding = h;
    app = none;
  }
  work signals ending (some (ok a), h) =
      with_opt signals ending a h (redis_asynq_opt a.outside.net a.config)

  unfoldable pub run_worker : Config → Start → List Signal → Ending → Holding → Ended WorkerError
  run_worker cfg s signals ending h = work signals ending (new cfg s h)
