-- ===== src/Graph/Health.antt =====
-- The operations of graph/schema.resolvers.go keep the runtime healthy.
use go_fibe.Base.{Bool, true, false, Option, none, some}
use go_fibe.Base.Exec.{Result, ok, ◌>>◌}
use go_fibe.Strings.{GoString}
use go_fibe.Models
use go_fibe.Models.{Monitor, Incident, IncidentInput, MaintenanceRun}
use go_fibe.Ability.{Context, Action, Resource}
use go_fibe.Cache
use go_fibe.Db
use go_fibe.Db.Schema.{Uuid, Tables}
use go_fibe.Db.Engine
use go_fibe.Db.Keeps.{Keeps-with_uuid}
use go_fibe.Db.Consistency.{IsConsistent}
use go_fibe.Db.History.{
  perform, perform-IsConsistent, creates_monitor, deletes_monitor, opens_incident,
  resolves_incident, inserts_maintenance_run, completes_maintenance_run,
}
use go_fibe.App.{AppError, AppAction, on_store, on_redis, discard}
use go_fibe.App.Health.{
  IsSafe, safety, pure-IsSafe, raise-IsSafe, if-IsSafe, on_store-IsSafe, query-IsSafe, bind-IsSafe,
  then-IsSafe,
}
use go_fibe.Jobs.{dashboard_keys}
use go_fibe.Jobs.Health.{enqueue-IsSafe}
use go_fibe.Graph
use go_fibe.Graph.{returned, required, or_internal, outcome, guarded, known, changed, run_task}
use go_fibe.Graph.Access.{
  Operation, create_monitor, delete_monitor, enqueue_check, resolve_incident, run_maintenance_task,
  check_events, open_incident, viewer, dashboard, monitors, incidents, job_runs, maintenance_tasks,
  maintenance_runs, execute,
}

module _ {A : Type 0} where
  returned-IsSafe : (r : Result AppError A) → IsSafe (returned r)
  returned-IsSafe r = record { at = λ ss a h. h }

  or_internal-IsSafe : (m : AppAction A) → IsSafe m → IsSafe (or_internal m)
  unfolding or_internal
  or_internal-IsSafe m p = record { at = p.at }

  outcome-IsSafe : (m : AppAction A) → IsSafe m → IsSafe (outcome m)
  unfolding outcome
  outcome-IsSafe m p = record { at = p.at }

  -- A read of the store.
  read-IsSafe :
      (f : Models.Time → Tables → A)
      → IsSafe (or_internal (on_store (Db.Engine.query λ now t. ok (f now t, t))))
  read-IsSafe f = or_internal-IsSafe _ (query-IsSafe _ (record { at = λ now t h. h }))

guarded-IsSafe : (b : Bool) → IsSafe (guarded b)
guarded-IsSafe true = pure-IsSafe tt
guarded-IsSafe false = raise-IsSafe _

cleared-IsSafe : IsSafe (discard (on_redis (Cache.delete dashboard_keys)))
cleared-IsSafe = search safety

cached_dashboard-IsSafe : IsSafe Graph.cached_dashboard
cached_dashboard-IsSafe = record {
  at = λ ss a h. record {
    tables = h.tables;
    bus = h.bus;
    subscribed = h.subscribed;
    running = h.running;
  };
}

keep_dashboard-IsSafe : (d : Models.Dashboard) → IsSafe (Graph.keep_dashboard d)
keep_dashboard-IsSafe d = record {
  at = λ ss a h. record {
    tables = h.tables;
    bus = h.bus;
    subscribed = h.subscribed;
    running = h.running;
  };
}

changed-IsSafe : (event : GoString) → IsSafe (changed event)
changed-IsSafe event = search safety

module _ {A : Type 0} where
  allowed-IsSafe :
      (ctx : Context) (action : Action) (resource : Resource) (m : AppAction A)
      → IsSafe m
      → IsSafe (required ctx action resource >> m)
  allowed-IsSafe ctx action resource m p = then-IsSafe _ m (returned-IsSafe _) p

module _ ⦃u : Uuid⦄ where
  known-IsSafe : (id : GoString) → IsSafe (known id)
  unfolding Db.Monitors.monitor_exists
  known-IsSafe id =
      bind-IsSafe _ guarded
        (or_internal-IsSafe _
          (query-IsSafe _ (Keeps-with_uuid IsConsistent id _ (λ c. record { at = λ now t h. h }))))
        guarded-IsSafe

  known_if_named-IsSafe : (id : Option GoString) → IsSafe (Graph.known_if_named id)
  known_if_named-IsSafe none = pure-IsSafe tt
  known_if_named-IsSafe (some id) = known-IsSafe id

  create_monitor-IsSafe :
      (v : Models.MonitorInput) → IsSafe (on_store (Db.Monitors.create_monitor v))
  unfolding perform
  create_monitor-IsSafe v = on_store-IsSafe _ (perform-IsConsistent (creates_monitor v))

  delete_monitor-IsSafe : (id : GoString) → IsSafe (on_store (Db.Monitors.delete_monitor id))
  unfolding perform
  delete_monitor-IsSafe id = on_store-IsSafe _ (perform-IsConsistent (deletes_monitor id))

  open_incident-IsSafe : (v : IncidentInput) → IsSafe (on_store (Db.Incidents.open_incident v))
  unfolding perform
  open_incident-IsSafe v = on_store-IsSafe _ (perform-IsConsistent (opens_incident v))

  resolve_incident-IsSafe : (id : GoString) → IsSafe (on_store (Db.Incidents.resolve_incident id))
  unfolding perform
  resolve_incident-IsSafe id = on_store-IsSafe _ (perform-IsConsistent (resolves_incident id))

  insert_maintenance_run-IsSafe :
      (name : GoString) → IsSafe (on_store (Db.Runs.insert_maintenance_run name))
  unfolding perform
  insert_maintenance_run-IsSafe name =
      on_store-IsSafe _ (perform-IsConsistent (inserts_maintenance_run name))

  complete_maintenance_run-IsSafe :
      (id status : GoString) (output : Option GoString)
      → IsSafe (on_store (Db.Runs.complete_maintenance_run id status output))
  unfolding perform
  complete_maintenance_run-IsSafe id status output =
      on_store-IsSafe _ (perform-IsConsistent (completes_maintenance_run id status output))

  run_task-IsSafe : (name : GoString) → IsSafe (run_task name)
  run_task-IsSafe name =
      bind-IsSafe _ _ (or_internal-IsSafe _ (insert_maintenance_run-IsSafe name)) (λ run.
        bind-IsSafe _ _ (outcome-IsSafe _ (enqueue-IsSafe _))
          (λ queued. or_internal-IsSafe _ (complete_maintenance_run-IsSafe _ _ _)))

  deleted_event-IsSafe : (id : GoString) (b : Bool) → IsSafe (Graph.deleted_event id b)
  deleted_event-IsSafe id true = search safety
  deleted_event-IsSafe id false = search safety

  cached_or_read-IsSafe : (d : Option Models.Dashboard) → IsSafe (Graph.cached_or_read d)
  unfolding Db.Dashboard.dashboard
  cached_or_read-IsSafe (some d) = pure-IsSafe d
  cached_or_read-IsSafe none =
      bind-IsSafe _ _ (read-IsSafe _)
        (λ d. then-IsSafe _ _ (keep_dashboard-IsSafe d) (pure-IsSafe d))

  -- Every operation, whoever asks for it and whether it fails or not.
  pub execute-IsSafe : (op : Operation) (ctx : Context) → IsSafe (execute op ctx)
  unfolding execute Graph.create_monitor Graph.delete_monitor Graph.enqueue_check
      Graph.resolve_incident Graph.run_maintenance_task Graph.check_events Graph.open_incident
      Graph.monitors Graph.dashboard Graph.incidents Graph.job_runs Graph.maintenance_tasks
      Graph.maintenance_runs Graph.viewer Db.Monitors.list_monitors Db.Incidents.list_incidents
      Db.Runs.recent_job_runs Db.Runs.recent_maintenance_runs Db.CheckEvents.check_events
  execute-IsSafe (create_monitor input) ctx = allowed-IsSafe ctx _ _ _ (
      bind-IsSafe _ _ (record { at = λ ss a h. h })
        (λ v.
          bind-IsSafe _ _ (or_internal-IsSafe _ (create_monitor-IsSafe v))
            (λ m. then-IsSafe _ _ (changed-IsSafe _) (pure-IsSafe m))))
  execute-IsSafe (delete_monitor id) ctx = allowed-IsSafe ctx _ _ _ (
      bind-IsSafe _ _ (or_internal-IsSafe _ (delete_monitor-IsSafe id)) (λ deleted.
        then-IsSafe _ _ cleared-IsSafe
          (then-IsSafe _ _ (deleted_event-IsSafe id deleted) (pure-IsSafe deleted))))
  execute-IsSafe (enqueue_check id) ctx =
      allowed-IsSafe ctx _ _ _
        (then-IsSafe _ _ (known-IsSafe id) (or_internal-IsSafe _ (enqueue-IsSafe _)))
  execute-IsSafe (resolve_incident id) ctx = allowed-IsSafe ctx _ _ _ (
      bind-IsSafe _ _ (outcome-IsSafe _ (resolve_incident-IsSafe id)) (λ found.
        bind-IsSafe _ _ (returned-IsSafe _)
          (λ i. then-IsSafe _ _ (changed-IsSafe _) (pure-IsSafe i))))
  execute-IsSafe (run_maintenance_task name) ctx =
      allowed-IsSafe ctx _ _ _ (if-IsSafe _ _ _ (run_task-IsSafe _) (raise-IsSafe _))
  execute-IsSafe (check_events id) ctx = allowed-IsSafe ctx _ _ _ (
      then-IsSafe _ _ (known-IsSafe id) (
        or_internal-IsSafe _
          (query-IsSafe _ (Keeps-with_uuid IsConsistent id _ (λ c. record { at = λ now t h. h })))))
  execute-IsSafe (open_incident input) ctx = allowed-IsSafe ctx _ _ _ (
      bind-IsSafe _ _ (returned-IsSafe _) (λ v.
        then-IsSafe _ _ (known_if_named-IsSafe input.monitor_id) (
          bind-IsSafe _ _ (or_internal-IsSafe _ (open_incident-IsSafe v))
            (λ i. then-IsSafe _ _ (changed-IsSafe _) (pure-IsSafe i)))))
  execute-IsSafe viewer ctx = pure-IsSafe _
  execute-IsSafe dashboard ctx =
      allowed-IsSafe ctx _ _ _
        (bind-IsSafe _ Graph.cached_or_read cached_dashboard-IsSafe cached_or_read-IsSafe)
  execute-IsSafe monitors ctx = allowed-IsSafe ctx _ _ _ (read-IsSafe _)
  execute-IsSafe incidents ctx = allowed-IsSafe ctx _ _ _ (read-IsSafe _)
  execute-IsSafe job_runs ctx = allowed-IsSafe ctx _ _ _ (read-IsSafe _)
  execute-IsSafe maintenance_tasks ctx = allowed-IsSafe ctx _ _ _ (pure-IsSafe _)
  execute-IsSafe maintenance_runs ctx = allowed-IsSafe ctx _ _ _ (read-IsSafe _)
