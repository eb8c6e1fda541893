-- ===== src/Db/History.antt =====
-- Any sequence of calls of internal/db/store.go, over connections that fail as they like.
use go_fibe.Base.{ℕ, ℤ, not, ◌&&◌, Option, none, some, List, [], ◌∷◌, any, find, update}
use go_fibe.Base.Exec.{Result, ok, err, continue}
use go_fibe.Strings.{GoString}
use go_fibe.Models.{User, Monitor, MonitorInput, IncidentInput, JobRun, MaintenanceRun}
use go_fibe.Db.Schema.{Tables, DbError, Uuid, Statement, is_job_status, is_maintenance_status}
use go_fibe.Db.Engine.{Store, query}
use go_fibe.Db.Keeps.{
  Holds, Holds-if, Keeps, Keeps-with_uuid, Keeps-with_text, query_keeps, transaction_keeps,
}
use go_fibe.Db.Incidents.{open_incident, resolve_incident, nullable_uuid}
use go_fibe.Db.Monitors.{create_monitor, delete_monitor}
use go_fibe.Db.CheckEvents.{insert_check_event, prune_events}
use go_fibe.Db.Runs.{
  job_is, run_is, returning, complete_run, with_detail, insert_job_run, insert_job_run_stmt,
  mark_job_running, mark_job_running_stmt, mark_job_finished, mark_job_finished_stmt,
  insert_maintenance_run, insert_maintenance_run_stmt, complete_maintenance_run,
  complete_maintenance_run_stmt,
}
use go_fibe.Db.Users.{email_is, admin_email, seed, upsert_admin, seed_monitors}
use go_fibe.Db.Consistency.{IsConsistent}
use go_fibe.Db.Consistency.Incidents.{
  open_incident_stmt-IsConsistent, resolve_incident_stmt-IsConsistent,
}
use go_fibe.Db.Consistency.Monitors.{
  create_monitor_stmt-IsConsistent, delete_monitor_stmt-IsConsistent, seed_monitors-IsConsistent,
}
use go_fibe.Db.Consistency.Events.{check_event_tx-IsConsistent, prune-IsConsistent}

-- The calls that write.
pub data Call : Type 0 where
  seeds : GoString → Call
  creates_monitor : MonitorInput → Call
  deletes_monitor : GoString → Call
  opens_incident : IncidentInput → Call
  resolves_incident : GoString → Call
  inserts_check_event : Monitor → GoString → Option ℤ → Option ℤ → Option GoString → Call
  prunes_events : Call
  inserts_job_run : GoString → GoString → Call
  marks_job_running : GoString → Call
  marks_job_finished : GoString → GoString → Option GoString → Call
  inserts_maintenance_run : GoString → Call
  completes_maintenance_run : GoString → GoString → Option GoString → Call

module _ ⦃u : Uuid⦄ where
  unfoldable pub perform : Call → Store → Store
  perform (seeds hash) s = (seed hash s).1
  perform (creates_monitor input) s = (create_monitor input s).1
  perform (deletes_monitor id) s = (delete_monitor id s).1
  perform (opens_incident input) s = (open_incident input s).1
  perform (resolves_incident id) s = (resolve_incident id s).1
  perform (inserts_check_event m status latency code message) s =
      (insert_check_event m status latency code message s).1
  perform prunes_events s = (prune_events s).1
  perform (inserts_job_run job_type detail) s = (insert_job_run job_type detail s).1
  perform (marks_job_running id) s = (mark_job_running id s).1
  perform (marks_job_finished id status detail) s = (mark_job_finished id status detail s).1
  perform (inserts_maintenance_run name) s = (insert_maintenance_run name s).1
  perform (completes_maintenance_run id status output) s =
      (complete_maintenance_run id status output s).1

  pub perform_all : List Call → Store → Store
  unfolding perform
  perform_all [] s = s
  perform_all (c ∷ cs) s = perform_all cs (perform c s)

-- The tables that the invariant does not speak of.
other-IsConsistent :
    (users : List User) (jobs : List JobRun) (runs : List MaintenanceRun) (draws : ℕ) (t : Tables)
    → IsConsistent t
    → IsConsistent
        (record t { users = users; job_runs = jobs; maintenance_runs = runs; draws = draws })
other-IsConsistent users jobs runs draws t c = record {
  one_open = c.one_open;
  incidents_refer = c.incidents_refer;
  incidents_dated = c.incidents_dated;
  events_refer = c.events_refer;
  keys_unique = c.keys_unique;
  intervals = c.intervals;
}

module _ ⦃u : Uuid⦄ where
  upsert_admin-IsConsistent : (hash : GoString) → Keeps IsConsistent (upsert_admin hash)
  unfolding upsert_admin
  upsert_admin-IsConsistent hash = Keeps-with_text IsConsistent hash _ (record {
    at = λ now t c.
        Holds-if IsConsistent (any (email_is admin_email) t.users) _ _
          (λ _. other-IsConsistent _ t.job_runs t.maintenance_runs t.draws t c)
          (λ _. other-IsConsistent _ t.job_runs t.maintenance_runs _ t c);
  })

  pub seed-IsConsistent :
      (hash : GoString) (s : Store) → IsConsistent s.tables → IsConsistent (seed hash s).1.tables
  unfolding seed
  seed-IsConsistent hash s c =
      then_monitors (query (upsert_admin hash) s).0 (query (upsert_admin hash) s).1
        (query_keeps IsConsistent _ (upsert_admin-IsConsistent hash) s c)
    where
      then_monitors :
          (r : Result DbError (Unit {0})) (s : Store)
          → IsConsistent s.tables
          → IsConsistent (continue r (λ _. query seed_monitors) s).1.tables
      then_monitors (ok a) s c = query_keeps IsConsistent _ seed_monitors-IsConsistent s c
      then_monitors (err e) s c = c

  with_detail-IsConsistent :
      {A : Type 0} (detail : Option GoString) (body : Statement A)
      → Keeps IsConsistent body
      → Keeps IsConsistent (with_detail detail body)
  with_detail-IsConsistent none body k = k
  with_detail-IsConsistent (some d) body k = Keeps-with_text IsConsistent d body k

  insert_job_run-IsConsistent :
      (job_type detail : GoString) → Keeps IsConsistent (insert_job_run_stmt job_type detail)
  unfolding insert_job_run_stmt
  insert_job_run-IsConsistent job_type detail = Keeps-with_text IsConsistent job_type _ (
      Keeps-with_text IsConsistent detail _
        (record { at = λ now t c. other-IsConsistent t.users _ t.maintenance_runs _ t c }))

  mark_job_running-IsConsistent : (s : GoString) → Keeps IsConsistent (mark_job_running_stmt s)
  unfolding mark_job_running_stmt
  mark_job_running-IsConsistent s =
      Keeps-with_uuid IsConsistent s _ (λ id. record {
        at = λ now t c. other-IsConsistent t.users _ t.maintenance_runs t.draws t c;
      })

  mark_job_finished-IsConsistent :
      (s status : GoString) (detail : Option GoString)
      → Keeps IsConsistent (mark_job_finished_stmt s status detail)
  unfolding mark_job_finished_stmt
  mark_job_finished-IsConsistent s status detail = Keeps-with_uuid IsConsistent s _ (λ id.
      with_detail-IsConsistent detail _ (record {
        at = λ now t c.
            Holds-if IsConsistent (any (job_is id) t.job_runs && not (is_job_status status)) _ _
              (λ _. tt) (λ _. other-IsConsistent t.users _ t.maintenance_runs t.draws t c);
      }))

  insert_maintenance_run-IsConsistent :
      (name : GoString) → Keeps IsConsistent (insert_maintenance_run_stmt name)
  unfolding insert_maintenance_run_stmt
  insert_maintenance_run-IsConsistent name =
      Keeps-with_text IsConsistent name _
        (record { at = λ now t c. other-IsConsistent t.users t.job_runs _ _ t c })

  returning-IsConsistent :
      (o : Option MaintenanceRun) (t : Tables) → IsConsistent t → Holds IsConsistent (returning o t)
  returning-IsConsistent none t c = tt
  returning-IsConsistent (some r) t c = c

  complete_maintenance_run-IsConsistent :
      (s status : GoString) (output : Option GoString)
      → Keeps IsConsistent (complete_maintenance_run_stmt s status output)
  unfolding complete_maintenance_run_stmt
  complete_maintenance_run-IsConsistent s status output = Keeps-with_uuid IsConsistent s _ (λ id.
      with_detail-IsConsistent output _ (record {
        at = λ now t c.
            Holds-if IsConsistent
              (any (run_is id) t.maintenance_runs && not (is_maintenance_status status)) _ _
              (λ _. tt)
              (λ _.
                returning-IsConsistent
                  (find (run_is id)
                    (update (run_is id) (complete_run status output now) t.maintenance_runs))
                  _ (other-IsConsistent t.users t.job_runs _ t.draws t c));
      }))

  pub perform-IsConsistent :
      (c : Call) (s : Store) → IsConsistent s.tables → IsConsistent (perform c s).tables
  unfolding perform create_monitor delete_monitor open_incident resolve_incident insert_check_event
      prune_events insert_job_run mark_job_running mark_job_finished insert_maintenance_run
      complete_maintenance_run
  perform-IsConsistent (seeds hash) s c = seed-IsConsistent hash s c
  perform-IsConsistent (creates_monitor input) s c =
      query_keeps IsConsistent _ (create_monitor_stmt-IsConsistent input) s c
  perform-IsConsistent (deletes_monitor id) s c =
      query_keeps IsConsistent _ (delete_monitor_stmt-IsConsistent id) s c
  perform-IsConsistent (opens_incident input) s c =
      query_keeps IsConsistent _
        (open_incident_stmt-IsConsistent (nullable_uuid input.monitor_id) input) s c
  perform-IsConsistent (resolves_incident id) s c =
      query_keeps IsConsistent _ (resolve_incident_stmt-IsConsistent id) s c
  perform-IsConsistent (inserts_check_event m status latency code message) s c =
      transaction_keeps IsConsistent _ (check_event_tx-IsConsistent m status latency code message) s
        c
  perform-IsConsistent prunes_events s c =
      query_keeps IsConsistent _ (record { at = λ now t c. prune-IsConsistent now t c }) s c
  perform-IsConsistent (inserts_job_run job_type detail) s c =
      query_keeps IsConsistent _ (insert_job_run-IsConsistent job_type detail) s c
  perform-IsConsistent (marks_job_running id) s c =
      query_keeps IsConsistent _ (mark_job_running-IsConsistent id) s c
  perform-IsConsistent (marks_job_finished id status detail) s c =
      query_keeps IsConsistent _ (mark_job_finished-IsConsistent id status detail) s c
  perform-IsConsistent (inserts_maintenance_run name) s c =
      query_keeps IsConsistent _ (insert_maintenance_run-IsConsistent name) s c
  perform-IsConsistent (completes_maintenance_run id status output) s c =
      query_keeps IsConsistent _ (complete_maintenance_run-IsConsistent id status output) s c

  -- Any sequence of calls of the store, each of which may fail or be lost at any round trip to
  -- PostgreSQL, keeps the tables consistent: at most one open incident for each monitor, no
  -- incident or check event of a monitor that is gone, a date on exactly the resolved incidents,
  -- one monitor for each name and URL, and check intervals within bounds.
  pub perform_all-IsConsistent :
      (cs : List Call) (s : Store) → IsConsistent s.tables → IsConsistent (perform_all cs s).tables
  unfolding perform_all
  perform_all-IsConsistent [] s c = c
  perform_all-IsConsistent (call ∷ cs) s c =
      perform_all-IsConsistent cs (perform call s) (perform-IsConsistent call s c)
