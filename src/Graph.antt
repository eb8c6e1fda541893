-- ===== src/Graph.antt =====
-- graph/schema.resolvers.go: the GraphQL operations.
pub mod Access
pub mod Creating
pub mod Freshness
pub mod Health
pub mod Input
pub mod Pointers
pub mod Reading
pub mod Untouched
pub mod Validation
use go_fibe.Base.{Bool, true, false, Option, none, some, List, [], ◌∷◌, ◌++◌, if◌then◌else◌}
use go_fibe.Base.Exec.{Result, ok, err, Exec, pure, raise, ◌>>=◌, ◌>>◌}
use go_fibe.Strings.{GoString, str, trim_space}
use go_fibe.Models
use go_fibe.Models.{
  Monitor, CheckEvent, Incident, JobRun, MaintenanceRun, MaintenanceTask, CurrentUser, Dashboard,
}
use go_fibe.Cache
use go_fibe.Cache.{CacheError}
use go_fibe.Ability.{
  Context, require, user_from_context, Action, Resource, action_read, action_manage, action_run,
  resource_monitor, resource_incident, resource_job, resource_maintenance,
}
use go_fibe.Db.Schema.{Uuid, DbError, no_rows}
use go_fibe.Db
use go_fibe.Maintenance
use go_fibe.App.{
  App, AppError, AppAction, ability, db, message, map_err, on_store, on_redis, discard,
  publish_event,
}
use go_fibe.Jobs.{type_check_monitor, dashboard_keys, event_of, enqueue}
use go_fibe.Graph.Input.{
  MonitorInput, IncidentInput, validate_monitor_input, validate_incident_input,
  maintenance_job_type,
}

abbrev returned : {A : Type 0} → Result AppError A → AppAction A
returned r a = (r, a)

abbrev pub required : Context → Action → Resource → AppAction CurrentUser
required ctx action resource = returned (map_err ability (require ctx action resource))

abbrev pub internal_error : AppError
internal_error = message (str "internal server error")

abbrev pub not_found : AppError
not_found = message (str "not found")

module _ {A : Type 0} where
  abbrev hidden : Result AppError A → Result AppError A
  hidden (ok r) = ok r
  hidden (err e) = err internal_error

  -- `if err != nil { return internalError(err) }`
  unfoldable pub or_internal : AppAction A → AppAction A
  or_internal m a = let (r, b) = m a in (hidden r, b)

  -- `err := f()` with a result that the code looks at.
  unfoldable pub outcome : AppAction A → AppAction (Result AppError A)
  outcome m a = let (r, b) = m a in (ok r, b)

abbrev pub changed : GoString → AppAction (Unit {0})
changed event = do discard (on_redis (Cache.delete dashboard_keys)); publish_event event

abbrev pub guarded : Bool → AppAction (Unit {0})
guarded true = pure tt
guarded false = raise not_found

module _ ⦃u : Uuid⦄ where
  abbrev pub known : GoString → AppAction (Unit {0})
  known id = do exists ← or_internal (on_store (Db.Monitors.monitor_exists id)); guarded exists

  abbrev pub validated : MonitorInput → AppAction Models.MonitorInput
  validated input a = returned (validate_monitor_input a.outside.net a.config input) a

  unfoldable pub create_monitor : Context → MonitorInput → AppAction Monitor
  create_monitor ctx input = do
    required ctx action_manage resource_monitor
    valid ← validated input
    monitor ← or_internal (on_store (Db.Monitors.create_monitor valid))
    changed (event_of (str "monitor") monitor.id (str "created"))
    pure monitor

  abbrev deleted_event : GoString → Bool → AppAction (Unit {0})
  deleted_event id true = publish_event (event_of (str "monitor") id (str "deleted"))
  deleted_event id false = pure tt

  unfoldable pub delete_monitor : Context → GoString → AppAction Bool
  delete_monitor ctx id = do
    required ctx action_manage resource_monitor
    deleted ← or_internal (on_store (Db.Monitors.delete_monitor id))
    discard (on_redis (Cache.delete dashboard_keys))
    deleted_event id deleted
    pure deleted

  unfoldable pub enqueue_check : Context → GoString → AppAction GoString
  enqueue_check ctx monitor_id = do
    required ctx action_run resource_job
    known monitor_id
    or_internal (enqueue (record { type = type_check_monitor; monitor_id = monitor_id }))

  abbrev known_if_named : Option GoString → AppAction (Unit {0})
  known_if_named none = pure tt
  known_if_named (some id) = known id

  unfoldable pub open_incident : Context → IncidentInput → AppAction Incident
  open_incident ctx input = do
    required ctx action_manage resource_incident
    valid ← returned (validate_incident_input input)
    known_if_named input.monitor_id
    incident ← or_internal (on_store (Db.Incidents.open_incident valid))
    changed (event_of (str "incident") incident.id (str "open"))
    pure incident

  -- IsNoRows tells the missing row from every other error.
  abbrev missing_or_internal : Result AppError Incident → Result AppError Incident
  missing_or_internal (ok i) = ok i
  missing_or_internal (err (db no_rows)) = err not_found
  missing_or_internal (err e) = err internal_error

  unfoldable pub resolve_incident : Context → GoString → AppAction Incident
  resolve_incident ctx id = do
    required ctx action_manage resource_incident
    found ← outcome (on_store (Db.Incidents.resolve_incident id))
    incident ← returned (missing_or_internal found)
    changed (event_of (str "incident") incident.id (str "resolved"))
    pure incident

  abbrev run_status : Result AppError GoString → GoString
  run_status (ok id) = str "succeeded"
  run_status (err e) = str "failed"

  abbrev run_output : Result AppError GoString → GoString
  run_output (ok id) = str "queued background job " ++ id
  run_output (err e) = str "failed to queue background job"

  abbrev run_task : GoString → AppAction MaintenanceRun
  run_task name = do
    run ← or_internal (on_store (Db.Runs.insert_maintenance_run name))
    queued ← outcome (enqueue (record { type = maintenance_job_type name; monitor_id = [] }))
    or_internal (
        on_store
          (Db.Runs.complete_maintenance_run run.id (run_status queued) (some (run_output queued))))

  unfoldable pub run_maintenance_task : Context → GoString → AppAction MaintenanceRun
  run_maintenance_task ctx name = do
    required ctx action_run resource_maintenance
    if Maintenance.exists (trim_space name)
        then run_task (trim_space name)
        else raise (message (str "maintenance task not found"))

  unfoldable pub check_events : Context → GoString → AppAction (List CheckEvent)
  check_events ctx monitor_id = do
    required ctx action_read resource_monitor
    known monitor_id
    or_internal (on_store (Db.CheckEvents.check_events monitor_id))

unfoldable pub viewer : Context → AppAction (Option CurrentUser)
viewer ctx = pure (user_from_context ctx)

unfoldable pub monitors : Context → AppAction (List Monitor)
monitors ctx = do
  required ctx action_read resource_monitor
  or_internal (on_store Db.Monitors.list_monitors)

unfoldable pub incidents : Context → AppAction (List Incident)
incidents ctx = do
  required ctx action_read resource_incident
  or_internal (on_store Db.Incidents.list_incidents)

unfoldable pub job_runs : Context → AppAction (List JobRun)
job_runs ctx = do
  required ctx action_read resource_job
  or_internal (on_store Db.Runs.recent_job_runs)

unfoldable pub maintenance_tasks : Context → AppAction (List MaintenanceTask)
maintenance_tasks ctx = do required ctx action_read resource_maintenance; pure Maintenance.tasks

unfoldable pub maintenance_runs : Context → AppAction (List MaintenanceRun)
maintenance_runs ctx = do
  required ctx action_read resource_maintenance
  or_internal (on_store Db.Runs.recent_maintenance_runs)

abbrev pub dashboard_key : GoString
dashboard_key = str "cache:dashboard"

-- An error of the cache counts as a miss.
abbrev pub hit_of : Result CacheError (Option Dashboard) → Option Dashboard
hit_of (ok d) = d
hit_of (err e) = none

abbrev pub cached_dashboard : AppAction (Option Dashboard)
cached_dashboard a =
    let (r, redis) = Cache.get_json a.outside.decode_dashboard dashboard_key a.redis in
    (ok (hit_of r), record a { redis = redis })

-- `_ = cache.SetJSON(…, 10*time.Second)`
abbrev pub keep_dashboard : Dashboard → AppAction (Unit {0})
keep_dashboard d a =
    let (r, redis) = Cache.set_json a.outside.encode_dashboard dashboard_key d 10000000 a.redis in
    (ok tt, record a { redis = redis })

abbrev pub cached_or_read : Option Dashboard → AppAction Dashboard
cached_or_read (some d) = pure d
cached_or_read none = do d ← or_internal (on_store Db.Dashboard.dashboard); keep_dashboard d; pure d

unfoldable pub dashboard : Context → AppAction Dashboard
dashboard ctx = do
  required ctx action_read resource_monitor
  cached ← cached_dashboard
  cached_or_read cached
