-- ===== src/Tests/Jobs.antt =====
-- Runs of the jobs.
use go_fibe.Base.{none, ℕ, ◌≡◌, ◌↔◌, refl, some, [], ◌∷◌, ◌++◌, true}
use go_fibe.Base.Exec.{ok, pure}
use go_fibe.Strings.{GoString, str, ◌==◌}
use go_fibe.Models.{Monitor}
use go_fibe.Security.{ensure_monitor_url_allowed}
use go_fibe.Db.Engine.{Store}
use go_fibe.Db.Runs.{mark_job_running}
use go_fibe.Db.Monitors.{monitor_by_id}
use go_fibe.Db.Recording.{record_check}
use go_fibe.App.{App, Task, AppAction, on_store, responded}
use go_fibe.Jobs.{
  handle_task, check_payload, Job, type_check_monitor, enqueue, perform, check_monitor, task_of,
}
use go_fibe.Jobs.Observing.{observe}
use go_fibe.Jobs.Handling.{checks, handle_task-enqueue}
use go_fibe.Jobs.Queueing.{enqueue_ok, inserted}
use go_fibe.Jobs.Running.{perform_lem, running, Recorded}
use go_fibe.Jobs.Checking.{observe_up_iff, check_monitor_ok}
use go_fibe.Tests.Fixtures.{plain_uuid, site}
use go_fibe.Tests.World.{app, config, outside}

abbrev check_site : Job
check_site = record { type = type_check_monitor; monitor_id = 7 ∷ [] }

enqueue_ok_example :
    ((inserted check_site app).id ≡ 8 ∷ [])
    × ((enqueue check_site app).1.store.tables.job_runs
        ≡ app.store.tables.job_runs ++ inserted check_site app ∷ [])
    × ((enqueue check_site app).1.queue.tasks
        ≡ app.queue.tasks ++ task_of outside check_site (8 ∷ []) ∷ [])
unfolding enqueue on_store go_fibe.Db.Runs.insert_job_run go_fibe.Db.Engine.query
    go_fibe.Db.Runs.insert_job_run_stmt go_fibe.Strings.is_utf8 go_fibe.Jobs.public_detail ◌==◌
    go_fibe.App.attempt go_fibe.App.enqueue_task go_fibe.App.publish_event go_fibe.Redis.publish
    go_fibe.Redis.send
enqueue_ok_example = enqueue_ok check_site (8 ∷ []) app refl

abbrev body : AppAction (Unit {0})
body = pure tt

perform_lem_example :
    ((running (8 ∷ []) app).store ≡ (mark_job_running (8 ∷ []) app.store).1)
    × Recorded
        (8 ∷ [])
        (body (running (8 ∷ []) app)).0
        (body (running (8 ∷ []) app)).1.store
        (perform (8 ∷ []) body app)
unfolding mark_job_running go_fibe.Db.Engine.query go_fibe.Db.Runs.mark_job_running_stmt
perform_lem_example = perform_lem (8 ∷ []) body app refl

observe_up_iff_example : ((observe config outside site).status ≡ str "up") ↔ (
    (ensure_monitor_url_allowed outside.net config site.url ≡ ok tt)
    × (outside.accepts_request site.method site.url ≡ true)
    × ((latency : ℕ) × (outside.fetch site.method site.url
          ≡ responded latency site.expected_status)))
observe_up_iff_example = observe_up_iff config outside site

check_monitor_ok_example :
    (m : Monitor) × ((monitor_by_id (7 ∷ []) app.store).0 ≡ ok m)
    × (let o = observe app.config app.outside m in
        let now =
          (monitor_by_id (7 ∷ []) app.store).1.clock (monitor_by_id (7 ∷ []) app.store).1.calls in
        (check_monitor (7 ∷ []) app).1.store.tables
        ≡ record_check m o.status o.latency o.code (some o.detail) now app.store.tables)
unfolding check_monitor on_store monitor_by_id go_fibe.Db.Engine.query ◌==◌
    go_fibe.Jobs.record_check_result go_fibe.Db.CheckEvents.insert_check_event
    go_fibe.Db.Engine.transaction go_fibe.Db.Engine.exec observe ensure_monitor_url_allowed
    go_fibe.Security.normalize_monitor_url go_fibe.Strings.trim_space go_fibe.Strings.is_space
    go_fibe.Strings.is_empty go_fibe.Security.host_is_private_or_local go_fibe.Strings.equal_fold
    go_fibe.Strings.has_suffix go_fibe.App.discard go_fibe.App.on_redis go_fibe.App.publish_event
    go_fibe.Db.CheckEvents.check_event_tx go_fibe.Db.CheckEvents.insert_check_event_row
    go_fibe.Db.CheckEvents.update_monitor_status go_fibe.Db.Incidents.insert_open_incident
    go_fibe.Db.Incidents.resolve_open_incidents go_fibe.Db.Incidents.sync_incident_for_check
    go_fibe.Redis.del go_fibe.Redis.publish go_fibe.Redis.send
    go_fibe.Security.ip_is_private_or_local go_fibe.Strings.Atoi.atoi go_fibe.Strings.Itoa.itoa
    go_fibe.Strings.Itoa.itoa_ℤ go_fibe.Strings.is_utf8 go_fibe.Strings.to_lower
check_monitor_ok_example = check_monitor_ok (7 ∷ []) app refl

handle_task-enqueue_example :
    (task : Task) × ((enqueue check_site app).1.queue.tasks ≡ app.queue.tasks ++ task ∷ [])
    × ((inserted check_site app).id ≡ 8 ∷ [])
    × (handle_task none task app ≡ perform (8 ∷ []) (check_monitor (7 ∷ [])) app)
unfolding enqueue on_store go_fibe.Db.Runs.insert_job_run go_fibe.Db.Engine.query
    go_fibe.Db.Runs.insert_job_run_stmt go_fibe.Strings.is_utf8 go_fibe.Jobs.public_detail ◌==◌
    go_fibe.App.attempt go_fibe.App.enqueue_task go_fibe.App.publish_event go_fibe.Redis.publish
    go_fibe.Redis.send go_fibe.Strings.is_empty
handle_task-enqueue_example =
    handle_task-enqueue none check_site (check_monitor (7 ∷ [])) (8 ∷ []) app app
      (checks (7 ∷ []) refl) refl refl refl refl
