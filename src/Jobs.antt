-- ===== src/Jobs.antt =====
-- internal/jobs/jobs.go: queueing of background jobs, and the worker's handlers.
pub mod Observing
pub mod Checking
pub mod Handling
pub mod Health
pub mod Queueing
pub mod Running
pub mod Scheduling
pub mod Worker
use go_fibe.Base.{
  ℕ, suc, ℤ, pos, eqb_ℤ, Bool, true, false, Option, none, some, List, [], ◌∷◌, ◌++◌, if◌then◌else◌,
}
use go_fibe.Base.Exec.{Result, ok, err, Exec, pure, raise, ◌>>=◌, ◌>>◌}
use go_fibe.Strings.{GoString, str, ◌==◌, is_empty}
use go_fibe.Strings.Itoa.{itoa_ℤ}
use go_fibe.Models.{Monitor}
use go_fibe.Cache
use go_fibe.Config.{Config}
use go_fibe.Security.{UrlError, ensure_monitor_url_allowed}
use go_fibe.Db.Schema.{Uuid}
use go_fibe.Db.Engine.{Store}
use go_fibe.Db.Runs.{insert_job_run, mark_job_running, mark_job_finished}
use go_fibe.Db.Monitors.{monitor_by_id, due_monitors}
use go_fibe.Db.CheckEvents.{insert_check_event, prune_events}
use go_fibe.Db.Users.{seed}
use go_fibe.App.{
  App, AppError, AppAction, Task, Fetch, failed, responded, Payload, Outside, message, bad_payload,
  on_store, on_redis, discard, attempt, publish_event, enqueue_task,
}
use go_fibe.Jobs.Observing.{Observation, observed, allowed_or, observe}

abbrev pub type_check_monitor : GoString
type_check_monitor = str "check_monitor"

abbrev pub type_rebuild_rollups : GoString
type_rebuild_rollups = str "rebuild_rollups"

abbrev pub type_clear_cache : GoString
type_clear_cache = str "clear_cache"

abbrev pub type_prune_events : GoString
type_prune_events = str "prune_events"

abbrev pub type_reseed_demo : GoString
type_reseed_demo = str "reseed_demo"

pub record Job : Type 0 where
  pub type : GoString
  -- The empty text where the job has no monitor.
  pub monitor_id : GoString

unfoldable pub public_detail : GoString → GoString
public_detail t =
    if t == type_check_monitor
    then str "check monitor"
    else if t == type_rebuild_rollups
    then str "rebuild dashboard rollups"
    else if t == type_clear_cache
    then str "clear application cache"
    else if t == type_prune_events
    then str "prune old check events"
    else if t == type_reseed_demo
    then str "reseed demo data"
    else str "background job"

-- fmt.Sprintf("job:%s:queued", id) and its like
abbrev pub event_of : GoString → GoString → GoString → GoString
event_of kind id what = kind ++ (b':' ∷ id ++ (b':' ∷ what))

abbrev pub dashboard_keys : List GoString
dashboard_keys = str "cache:dashboard" ∷ str "cache:public_status" ∷ []

abbrev pub task_of : Outside → Job → GoString → Task
task_of o job id = record {
  type = job.type;
  payload = o.encode (record { job_run_id = id; monitor_id = job.monitor_id });
}

module _ ⦃u : Uuid⦄ where
  abbrev pub queued_or : GoString → Option AppError → AppAction GoString
  queued_or id none = do publish_event (event_of (str "job") id (str "queued")); pure id
  queued_or id (some e) = do
    discard (
        on_store
          (mark_job_finished id (str "failed") (some (str "failed to queue background job"))))
    raise e

  abbrev pub queue_up : Job → GoString → AppAction GoString
  queue_up job id a =
      (do failure ← attempt (enqueue_task (task_of a.outside job id)); queued_or id failure) a

  unfoldable pub enqueue : Job → AppAction GoString
  enqueue job = do id ← on_store (insert_job_run job.type (public_detail job.type)); queue_up job id

  abbrev pub performed : GoString → Option AppError → AppAction (Unit {0})
  performed id (some e) = do
    discard (
        on_store (mark_job_finished id (str "failed") (some (str "job failed; check server logs"))))
    publish_event (event_of (str "job") id (str "failed"))
    raise e
  performed id none = do
    on_store (mark_job_finished id (str "succeeded") none)
    discard (on_redis (Cache.delete (str "cache:dashboard" ∷ [])))
    publish_event (event_of (str "job") id (str "succeeded"))
    pure tt

  unfoldable pub perform : GoString → AppAction (Unit {0}) → AppAction (Unit {0})
  perform id fn = do
    on_store (mark_job_running id)
    publish_event (event_of (str "job") id (str "running"))
    failure ← attempt fn
    performed id failure

  unfoldable pub record_check_result : Monitor → Observation → AppAction (Unit {0})
  record_check_result m o = do
    on_store (insert_check_event m o.status o.latency o.code (some o.detail))
    discard (on_redis (Cache.delete dashboard_keys))
    publish_event (event_of (str "monitor") m.id o.status)
    pure tt

  abbrev check_and_record : Monitor → AppAction (Unit {0})
  check_and_record m a = record_check_result m (observe a.config a.outside m) a

  unfoldable pub check_monitor : GoString → AppAction (Unit {0})
  check_monitor id = do m ← on_store (monitor_by_id id); check_and_record m

  -- What the worker runs for a task, given its payload.
  abbrev pub check_payload : GoString → AppAction (Unit {0})
  check_payload id =
      if is_empty id then raise (message (str "monitor id missing")) else check_monitor id

  -- `hash` is the outcome of argon2id.CreateHash for the demo password.
  abbrev reseed : Option GoString → AppAction (Unit {0})
  reseed none = raise (message (str "argon2id"))
  reseed (some hash) = on_store (seed hash)

  -- The mux: the body of the job that handles a type.
  abbrev pub body_of : Option GoString → GoString → Option (Payload → AppAction (Unit {0}))
  body_of hash type =
      if type == type_check_monitor
      then some (λ p. check_payload p.monitor_id)
      else if type == type_rebuild_rollups
      then some (λ p. on_redis (Cache.delete dashboard_keys))
      else if type == type_clear_cache
      then some (λ p. on_redis (Cache.delete dashboard_keys))
      else if type == type_prune_events
      then some (λ p. on_store prune_events)
      else if type == type_reseed_demo
      then some (λ p. reseed hash)
      else none

  abbrev decoded : (Payload → AppAction (Unit {0})) → Option Payload → AppAction (Unit {0})
  decoded body none = raise bad_payload
  decoded body (some p) = perform p.job_run_id (body p)

  abbrev handled : Option (Payload → AppAction (Unit {0})) → Option Payload → AppAction (Unit {0})
  handled none p = raise (message (str "handler not found"))
  handled (some body) p = decoded body p

  -- The mux of RunWorker with its five handlers, for the types that Enqueue uses; the mux refuses a
  -- type without a handler.
  unfoldable pub handle_task : Option GoString → Task → AppAction (Unit {0})
  handle_task hash t a = handled (body_of hash t.type) (a.outside.decode t.payload) a

  -- The loop of enqueueDueMonitorChecks stops at the first error.
  unfoldable pub enqueue_checks : List Monitor → AppAction (Unit {0})
  unfolding enqueue
  enqueue_checks [] = pure tt
  enqueue_checks (m ∷ ms) =
      let rest = enqueue_checks ms in
      do enqueue (record { type = type_check_monitor; monitor_id = m.id }); rest

  unfoldable pub enqueue_due_monitor_checks : AppAction (Unit {0})
  unfolding enqueue_checks
  enqueue_due_monitor_checks = do monitors ← on_store (due_monitors 10); enqueue_checks monitors
