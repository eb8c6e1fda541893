-- ===== src/Graph/Access.antt =====
-- The operations of graph/schema.resolvers.go as one type, and what they let a caller do.
use go_fibe.Base.{◌≡◌, arith, Bool, Option, none, some, List}
use go_fibe.Base.Exec.{err}
use go_fibe.Strings.{GoString}
use go_fibe.Models.{
  Monitor, CheckEvent, Incident, JobRun, MaintenanceRun, MaintenanceTask, CurrentUser, Dashboard,
}
use go_fibe.Ability.{
  Context, AbilityError, require, Action, Resource, action_read, action_manage, action_run,
  resource_monitor, resource_incident, resource_job, resource_maintenance,
}
use go_fibe.Db.Schema.{Uuid}
use go_fibe.App.{App, AppAction, ability}
use go_fibe.Graph
use go_fibe.Graph.Input.{MonitorInput, IncidentInput}

-- A field of the schema's Query or Mutation, with its arguments.
pub data Operation : Type 0 where
  create_monitor : MonitorInput → Operation
  delete_monitor enqueue_check resolve_incident run_maintenance_task check_events :
      GoString → Operation
  open_incident : IncidentInput → Operation
  viewer dashboard monitors incidents job_runs maintenance_tasks maintenance_runs : Operation

-- What a field returns.
abbrev pub Reply : Operation → Type 0
Reply (create_monitor input) = Monitor
Reply (delete_monitor id) = Bool
Reply (enqueue_check id) = GoString
Reply (resolve_incident id) = Incident
Reply (run_maintenance_task name) = MaintenanceRun
Reply (check_events id) = List CheckEvent
Reply (open_incident input) = Incident
Reply viewer = Option CurrentUser
Reply dashboard = Dashboard
Reply monitors = List Monitor
Reply incidents = List Incident
Reply job_runs = List JobRun
Reply maintenance_tasks = List MaintenanceTask
Reply maintenance_runs = List MaintenanceRun

-- What a caller needs leave for; `viewer` is open to all.
abbrev pub needs : Operation → Option (Action × Resource)
needs (create_monitor input) = some (action_manage, resource_monitor)
needs (delete_monitor id) = some (action_manage, resource_monitor)
needs (enqueue_check id) = some (action_run, resource_job)
needs (resolve_incident id) = some (action_manage, resource_incident)
needs (run_maintenance_task name) = some (action_run, resource_maintenance)
needs (check_events id) = some (action_read, resource_monitor)
needs (open_incident input) = some (action_manage, resource_incident)
needs viewer = none
needs dashboard = some (action_read, resource_monitor)
needs monitors = some (action_read, resource_monitor)
needs incidents = some (action_read, resource_incident)
needs job_runs = some (action_read, resource_job)
needs maintenance_tasks = some (action_read, resource_maintenance)
needs maintenance_runs = some (action_read, resource_maintenance)

module _ ⦃u : Uuid⦄ where
  unfoldable pub execute : (op : Operation) → Context → AppAction (Reply op)
  execute (create_monitor input) ctx = Graph.create_monitor ctx input
  execute (delete_monitor id) ctx = Graph.delete_monitor ctx id
  execute (enqueue_check id) ctx = Graph.enqueue_check ctx id
  execute (resolve_incident id) ctx = Graph.resolve_incident ctx id
  execute (run_maintenance_task name) ctx = Graph.run_maintenance_task ctx name
  execute (check_events id) ctx = Graph.check_events ctx id
  execute (open_incident input) ctx = Graph.open_incident ctx input
  execute viewer ctx = Graph.viewer ctx
  execute dashboard ctx = Graph.dashboard ctx
  execute monitors ctx = Graph.monitors ctx
  execute incidents ctx = Graph.incidents ctx
  execute job_runs ctx = Graph.job_runs ctx
  execute maintenance_tasks ctx = Graph.maintenance_tasks ctx
  execute maintenance_runs ctx = Graph.maintenance_runs ctx

  -- A GraphQL operation whose caller may not do it returns the ability error and changes nothing at
  -- all: no row, no task, no cache entry, no event.
  pub execute_refused :
      (op : Operation) (ctx : Context) (a : App) (action : Action) (resource : Resource)
      (e : AbilityError)
      → needs op ≡ some (action, resource)
      → require ctx action resource ≡ err e
      → execute op ctx a ≡ (err (ability e), a)
  unfolding execute Graph.create_monitor Graph.delete_monitor Graph.enqueue_check
      Graph.resolve_incident Graph.run_maintenance_task Graph.check_events Graph.open_incident
      Graph.monitors Graph.dashboard Graph.incidents Graph.job_runs Graph.maintenance_tasks
      Graph.maintenance_runs
  execute_refused (create_monitor input) ctx a action resource e n h = ground arith
  execute_refused (delete_monitor id) ctx a action resource e n h = ground arith
  execute_refused (enqueue_check id) ctx a action resource e n h = ground arith
  execute_refused (resolve_incident id) ctx a action resource e n h = ground arith
  execute_refused (run_maintenance_task name) ctx a action resource e n h = ground arith
  execute_refused (check_events id) ctx a action resource e n h = ground arith
  execute_refused (open_incident input) ctx a action resource e n h = ground arith
  execute_refused viewer ctx a action resource e n h = cc
  execute_refused dashboard ctx a action resource e n h = ground arith
  execute_refused monitors ctx a action resource e n h = ground arith
  execute_refused incidents ctx a action resource e n h = ground arith
  execute_refused job_runs ctx a action resource e n h = ground arith
  execute_refused maintenance_tasks ctx a action resource e n h = ground arith
  execute_refused maintenance_runs ctx a action resource e n h = ground arith
