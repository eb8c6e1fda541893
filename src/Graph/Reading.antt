-- ===== src/Graph/Reading.antt =====
-- What the resolvers of graph/schema.resolvers.go do for a caller that may only read.
use go_fibe.Base.{[], ◌≡◌, refl, ap, some}
use go_fibe.Base.Exec.{Result, err}
use go_fibe.Strings.{GoString, str, ◌==◌}
use go_fibe.Models.{CurrentUser}
use go_fibe.Ability.{
  Context, not_authorized, can, require, user_from_context, Action, Resource, action_read,
  action_manage, action_run, resource_monitor, resource_maintenance,
}
use go_fibe.Db
use go_fibe.Db.Schema.{Uuid}
use go_fibe.Db.Keeps.{Keeps-with_uuid}
use go_fibe.App.{App, AppError, on_store}
use go_fibe.Graph
use go_fibe.Graph.{
  dashboard_key, cached_dashboard, keep_dashboard, cached_or_read, guarded, known, required,
  or_internal,
}
use go_fibe.Graph.Access.{
  Operation, create_monitor, delete_monitor, enqueue_check, resolve_incident, run_maintenance_task,
  check_events, open_incident, viewer, dashboard, monitors, incidents, job_runs, maintenance_tasks,
  maintenance_runs, execute, execute_refused, needs,
}
use go_fibe.Graph.Untouched.{
  Untouched, Reads, Reads-query, Untouched-refl, bind-Untouched, read-Untouched, list-Untouched,
  guarded-Untouched, cached_dashboard-Untouched, cached_or_read-Untouched,
}

viewer_refused :
    (ctx : Context) (user : CurrentUser) (resource : Resource)
    → user_from_context ctx ≡ some user
    → user.role ≡ str "viewer"
    → (require ctx action_manage resource ≡ err not_authorized)
      × (require ctx action_run resource ≡ err not_authorized)
unfolding require can ◌==◌
viewer_refused ctx user resource e role = (rw (e, role) refl, rw (e, role) refl)

refused-Untouched :
    {A : Type 0} (x : Result AppError A × App) (e : Result AppError A) (a : App)
    → x ≡ (e, a)
    → Untouched a x.1
refused-Untouched x e a h = record {
  tables = ap (λ r. r.1.store.tables) h;
  queue = ap (λ r. r.1.queue) h;
  events = ap (λ r. r.1.events) h;
  redis = record { between = []; log = ap (λ r. r.1.redis.log) h; of_dashboard = refl };
}

module _ ⦃u : Uuid⦄ where
  monitor_exists-Reads : (id : GoString) → Reads (Db.Monitors.monitor_exists id)
  unfolding Db.Monitors.monitor_exists
  monitor_exists-Reads id =
      Reads-query _ (λ t. Keeps-with_uuid _ id _ (λ c. record { at = λ now t' p. p }))

  check_events-Reads : (id : GoString) → Reads (Db.CheckEvents.check_events id)
  unfolding Db.CheckEvents.check_events
  check_events-Reads id =
      Reads-query _ (λ t. Keeps-with_uuid _ id _ (λ c. record { at = λ now t' p. p }))

  known-Untouched : (id : GoString) (a : App) → Untouched a (known id a).1
  known-Untouched id a =
      bind-Untouched (or_internal (on_store (Db.Monitors.monitor_exists id))) guarded a
        (read-Untouched _ (monitor_exists-Reads id) a) (λ b. guarded-Untouched b _)

  denied :
      (op : Operation) (ctx : Context) (a : App) {action : Action} {resource : Resource}
      → needs op ≡ some (action, resource)
      → require ctx action resource ≡ err not_authorized
      → Untouched a (execute op ctx a).1
  denied op ctx a n h = refused-Untouched _ _ a (execute_refused op ctx a _ _ not_authorized n h)

  -- Whatever operation a viewer asks for, the rows, the queue and the local bus stay as they were,
  -- and Redis executes nothing but GET and SET of the cached dashboard.
  pub viewer_changes_nothing :
      (op : Operation) (ctx : Context) (user : CurrentUser) (a : App)
      → user_from_context ctx ≡ some user
      → user.role ≡ str "viewer"
      → Untouched a (execute op ctx a).1
  unfolding execute Graph.viewer Graph.check_events Graph.monitors Graph.dashboard Graph.incidents
      Graph.job_runs Graph.maintenance_tasks Graph.maintenance_runs Db.Monitors.list_monitors
      Db.Incidents.list_incidents Db.Runs.recent_job_runs Db.Runs.recent_maintenance_runs
  viewer_changes_nothing (create_monitor input) ctx user a e h =
      denied (create_monitor input) ctx a refl (viewer_refused ctx user _ e h).0
  viewer_changes_nothing (delete_monitor id) ctx user a e h =
      denied (delete_monitor id) ctx a refl (viewer_refused ctx user _ e h).0
  viewer_changes_nothing (enqueue_check id) ctx user a e h =
      denied (enqueue_check id) ctx a refl (viewer_refused ctx user _ e h).1
  viewer_changes_nothing (resolve_incident id) ctx user a e h =
      denied (resolve_incident id) ctx a refl (viewer_refused ctx user _ e h).0
  viewer_changes_nothing (run_maintenance_task name) ctx user a e h =
      denied (run_maintenance_task name) ctx a refl (viewer_refused ctx user _ e h).1
  viewer_changes_nothing (open_incident input) ctx user a e h =
      denied (open_incident input) ctx a refl (viewer_refused ctx user _ e h).0
  viewer_changes_nothing (check_events id) ctx user a e h =
      bind-Untouched (required ctx action_read resource_monitor) _ a (Untouched-refl a) (λ _.
        bind-Untouched (known id) _ a (known-Untouched id a)
          (λ _. read-Untouched _ (check_events-Reads id) _))
  viewer_changes_nothing viewer ctx user a e h = Untouched-refl a
  viewer_changes_nothing dashboard ctx user a e h =
      bind-Untouched (required ctx action_read resource_monitor) _ a (Untouched-refl a) (λ _.
        bind-Untouched cached_dashboard cached_or_read a (cached_dashboard-Untouched a)
          (λ d. cached_or_read-Untouched d _))
  viewer_changes_nothing monitors ctx user a e h =
      list-Untouched ctx _ _ (Reads-query _ (λ t. record { at = λ now t' p. p })) a
  viewer_changes_nothing incidents ctx user a e h =
      list-Untouched ctx _ _ (Reads-query _ (λ t. record { at = λ now t' p. p })) a
  viewer_changes_nothing job_runs ctx user a e h =
      list-Untouched ctx _ _ (Reads-query _ (λ t. record { at = λ now t' p. p })) a
  viewer_changes_nothing maintenance_tasks ctx user a e h =
      bind-Untouched (required ctx action_read resource_maintenance) _ a (Untouched-refl a)
        (λ _. Untouched-refl a)
  viewer_changes_nothing maintenance_runs ctx user a e h =
      list-Untouched ctx _ _ (Reads-query _ (λ t. record { at = λ now t' p. p })) a
