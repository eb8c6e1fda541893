-- ===== src/Jobs/Health.antt =====
-- The jobs of internal/jobs/jobs.go keep the runtime healthy.
use go_fibe.Base.{◌≡◌, refl, Bool, true, false, Option, none, some, List, [], ◌∷◌, if◌then◌else◌}
use go_fibe.Base.Exec.{pure}
use go_fibe.Strings.{GoString, ◌==◌}
use go_fibe.Models.{Monitor}
use go_fibe.Db.Schema.{Uuid, Tables}
use go_fibe.Db.Runs.{insert_job_run, mark_job_running, mark_job_finished}
use go_fibe.Db.Monitors.{monitor_by_id, due_monitors, found}
use go_fibe.Db.CheckEvents.{insert_check_event, prune_events}
use go_fibe.Db.Users.{seed}
use go_fibe.Db.History.{
  perform, perform-IsConsistent, inserts_job_run, marks_job_running, marks_job_finished,
  inserts_check_event, prunes_events, seeds,
}
use go_fibe.Db.Consistency.{IsConsistent}
use go_fibe.Db.Keeps.{Holds, Keeps-with_uuid}
use go_fibe.App.{AppError, AppAction, Task, Payload, on_store, attempt, enqueue_task}
use go_fibe.App.Health.{
  IsSafe, safety, pure-IsSafe, raise-IsSafe, if-IsSafe, on_store-IsSafe, query-IsSafe,
  on_redis-IsSafe, attempt-IsSafe, bind-IsSafe, then-IsSafe, publish_event-IsSafe,
}
use go_fibe.Jobs.Observing.{observe}
use go_fibe.Jobs.{
  type_check_monitor, type_rebuild_rollups, type_clear_cache, type_prune_events, type_reseed_demo,
  Job, dashboard_keys, enqueue, queued_or, queue_up, task_of, performed, record_check_result,
  check_monitor, check_and_record, check_payload, reseed, body_of, decoded, handled, handle_task,
  enqueue_checks, enqueue_due_monitor_checks,
}
use go_fibe.Jobs.Observing.{Observation}
use go_fibe.Jobs
use go_fibe.Cache
use mathlib.Core.Path.{subst}

-- The body that the mux finds for a task, if any, is safe.
record AreSafe (o : Option (Payload → AppAction (Unit {0}))) : Type 0 where
  each : (body : Payload → AppAction (Unit {0})) → o ≡ some body → (p : Payload) → IsSafe (body p)

some-AreSafe :
    (body : Payload → AppAction (Unit {0}))
    → ((p : Payload) → IsSafe (body p))
    → AreSafe (some body)
some-AreSafe body k = record {
  each = λ other e p.
      subst (λ (o : Option (Payload → AppAction (Unit {0}))). IsSafe (got o p)) e (k p);
}
  where
    got : Option (Payload → AppAction (Unit {0})) → Payload → AppAction (Unit {0})
    got none p = pure tt
    got (some other) p = other p

none-AreSafe : AreSafe none
none-AreSafe = record { each = λ body e. cc }

if-AreSafe :
    (b : Bool) (x y : Option (Payload → AppAction (Unit {0})))
    → AreSafe x
    → AreSafe y
    → AreSafe (if b then x else y)
if-AreSafe true x y p q = p
if-AreSafe false x y p q = q

module _ ⦃u : Uuid⦄ where
  found-Holds : (o : Option Monitor) (t : Tables) → IsConsistent t → Holds IsConsistent (found o t)
  found-Holds none t h = tt
  found-Holds (some x) t h = h

  insert_job_run-IsSafe : (type detail : GoString) → IsSafe (on_store (insert_job_run type detail))
  unfolding perform
  insert_job_run-IsSafe type detail =
      on_store-IsSafe _ (perform-IsConsistent (inserts_job_run type detail))

  mark_job_running-IsSafe : (id : GoString) → IsSafe (on_store (mark_job_running id))
  unfolding perform
  mark_job_running-IsSafe id = on_store-IsSafe _ (perform-IsConsistent (marks_job_running id))

  mark_job_finished-IsSafe :
      (id status : GoString) (detail : Option GoString)
      → IsSafe (on_store (mark_job_finished id status detail))
  unfolding perform
  mark_job_finished-IsSafe id status detail =
      on_store-IsSafe _ (perform-IsConsistent (marks_job_finished id status detail))

  queued_or-IsSafe : (id : GoString) (e : Option AppError) → IsSafe (queued_or id e)
  queued_or-IsSafe id none = search safety
  queued_or-IsSafe id (some e) = search (safety, mark_job_finished-IsSafe)

  queue_up-IsSafe : (job : Job) (id : GoString) → IsSafe (queue_up job id)
  queue_up-IsSafe job id = record {
    at = λ ss a h.
        (bind-IsSafe (attempt (enqueue_task (task_of a.outside job id))) (queued_or id)
            (search safety) (queued_or-IsSafe id)).at
          ss a h;
  }

  pub enqueue-IsSafe : (job : Job) → IsSafe (enqueue job)
  unfolding enqueue
  enqueue-IsSafe job =
      bind-IsSafe _ (queue_up job) (insert_job_run-IsSafe _ _) (queue_up-IsSafe job)

  performed-IsSafe : (id : GoString) (e : Option AppError) → IsSafe (performed id e)
  performed-IsSafe id none = search (safety, mark_job_finished-IsSafe)
  performed-IsSafe id (some e) = search (safety, mark_job_finished-IsSafe)

  pub perform-IsSafe :
      (id : GoString) (fn : AppAction (Unit {0})) → IsSafe fn → IsSafe (Jobs.perform id fn)
  unfolding Jobs.perform
  perform-IsSafe id fn p = then-IsSafe _ _ (mark_job_running-IsSafe id) (
      then-IsSafe _ _ (publish_event-IsSafe _)
        (bind-IsSafe _ (performed id) (attempt-IsSafe _ p) (performed-IsSafe id)))

  insert_check_event-IsSafe :
      (m : Monitor) (o : Observation)
      → IsSafe (on_store (insert_check_event m o.status o.latency o.code (some o.detail)))
  unfolding perform
  insert_check_event-IsSafe m o =
      on_store-IsSafe _
        (perform-IsConsistent (inserts_check_event m o.status o.latency o.code (some o.detail)))

  record_check_result-IsSafe : (m : Monitor) (o : Observation) → IsSafe (record_check_result m o)
  unfolding record_check_result
  record_check_result-IsSafe m o = search (safety, insert_check_event-IsSafe)

  check_monitor-IsSafe : (id : GoString) → IsSafe (check_monitor id)
  unfolding check_monitor monitor_by_id
  check_monitor-IsSafe id =
      bind-IsSafe _ check_and_record
        (query-IsSafe _
          (Keeps-with_uuid IsConsistent id _ (λ c. record { at = λ now t h. found-Holds _ t h })))
        (λ m. record {
          at = λ ss a h. (record_check_result-IsSafe m (observe a.config a.outside m)).at ss a h;
        })

  seed-IsSafe : (hash : GoString) → IsSafe (on_store (seed hash))
  unfolding perform
  seed-IsSafe hash = on_store-IsSafe _ (perform-IsConsistent (seeds hash))

  prune_events-IsSafe : IsSafe (on_store prune_events)
  unfolding perform
  prune_events-IsSafe = on_store-IsSafe _ (perform-IsConsistent prunes_events)

  reseed-IsSafe : (hash : Option GoString) → IsSafe (reseed hash)
  reseed-IsSafe none = raise-IsSafe _
  reseed-IsSafe (some hash) = seed-IsSafe hash

  body_of-AreSafe : (hash : Option GoString) (type : GoString) → AreSafe (body_of hash type)
  body_of-AreSafe hash type =
      let clear = some-AreSafe _ (λ p. on_redis-IsSafe (Cache.delete dashboard_keys)) in
      if-AreSafe (type == type_check_monitor) _ _
        (some-AreSafe _ (λ p. if-IsSafe _ _ _ (raise-IsSafe _) (check_monitor-IsSafe p.monitor_id)))
        (if-AreSafe (type == type_rebuild_rollups) _ _ clear (
          if-AreSafe (type == type_clear_cache) _ _ clear (
            if-AreSafe (type == type_prune_events) _ _ (some-AreSafe _ (λ p. prune_events-IsSafe)) (
              if-AreSafe (type == type_reseed_demo) _ _ (some-AreSafe _ (λ p. reseed-IsSafe hash))
                none-AreSafe))))

  handled-IsSafe :
      (body : Option (Payload → AppAction (Unit {0}))) (p : Option Payload)
      → AreSafe body
      → IsSafe (handled body p)
  handled-IsSafe none p k = raise-IsSafe _
  handled-IsSafe (some body) none k = raise-IsSafe _
  handled-IsSafe (some body) (some p) k = perform-IsSafe p.job_run_id (body p) (k.each body refl p)

  pub handle_task-IsSafe : (hash : Option GoString) (t : Task) → IsSafe (handle_task hash t)
  unfolding handle_task
  handle_task-IsSafe hash t = record {
    at = λ ss a h.
        (handled-IsSafe (body_of hash t.type) (a.outside.decode t.payload)
            (body_of-AreSafe hash t.type)).at
          ss a h;
  }

  enqueue_checks-IsSafe : (ms : List Monitor) → IsSafe (enqueue_checks ms)
  unfolding enqueue_checks
  enqueue_checks-IsSafe [] = pure-IsSafe tt
  enqueue_checks-IsSafe (m ∷ ms) = then-IsSafe _ _ (enqueue-IsSafe _) (enqueue_checks-IsSafe ms)

  pub enqueue_due_monitor_checks-IsSafe : IsSafe enqueue_due_monitor_checks
  unfolding enqueue_due_monitor_checks due_monitors
  enqueue_due_monitor_checks-IsSafe =
      bind-IsSafe _ enqueue_checks (query-IsSafe _ (record { at = λ now t h. h }))
        enqueue_checks-IsSafe
