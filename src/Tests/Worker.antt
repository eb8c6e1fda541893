-- ===== src/Tests/Worker.antt =====
-- Runs of the worker.
use go_fibe.Base.{◌≡◌, refl, none, some, true, List, [], ◌∷◌, ◌++◌, pos, eqb, if◌then◌else◌}
use go_fibe.Strings.{str, ◌==◌}
use go_fibe.App.{App}
use go_fibe.Db.Engine.{answered, refused}
use go_fibe.Jobs.{enqueue_due_monitor_checks}
use go_fibe.Jobs.Scheduling.{Queued, due_of, tick_queues}
use go_fibe.Jobs.Worker.{Signal, tick, meanwhile, schedule_loop, schedule_due_monitor_checks}
use go_fibe.Tests.Fixtures.{plain_uuid}
use go_fibe.Tests.World.{app, config}

-- PostgreSQL refuses the first statement, so that the first tick fails.
abbrev unlucky : App
unlucky = record app {
  store = record app.store { fate = λ n. if eqb n 0 then refused else answered };
}

-- The queue is emptied between the ticks.
abbrev before : List Signal
before = tick ∷ meanwhile (λ a. record a { queue = record a.queue { tasks = [] } }) ∷ []

abbrev hasty : App
hasty = record app { config = record config { monitor_check_interval = pos 0 } }

no_interval : schedule_due_monitor_checks [] hasty ≡ none
unfolding schedule_due_monitor_checks
no_interval = refl

tick_queues_example :
    Queued
      (due_of (schedule_loop before unlucky))
      (schedule_loop before unlucky)
      (schedule_loop (before ++ tick ∷ []) unlucky)
unfolding enqueue_due_monitor_checks go_fibe.App.on_store go_fibe.Db.Monitors.due_monitors
    go_fibe.Db.Engine.query schedule_loop go_fibe.Db.Monitors.due go_fibe.Base.sort_by
    go_fibe.Db.Runs.insert_job_run go_fibe.Db.Runs.insert_job_run_stmt go_fibe.Strings.is_utf8
    go_fibe.Jobs.public_detail ◌==◌ go_fibe.App.attempt go_fibe.App.enqueue_task
    go_fibe.App.publish_event go_fibe.Redis.publish
tick_queues_example = tick_queues before unlucky refl refl
