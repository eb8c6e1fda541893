-- ===== src/Db/Rows/Scans.antt =====
-- The SELECT lists of internal/db/store.go, and the destinations that it scans them into.
use go_fibe.Base.{List, [], ◌∷◌}
use go_fibe.Base.Exec.{pure, ◌>>=◌}
use go_fibe.Strings.{GoString, str}
use go_fibe.Models.{User, Monitor, CheckEvent, Incident, JobRun, MaintenanceRun}
use go_fibe.Db.Rows.{Dest, to_text, to_int, to_bool, to_time, to_nullable}

-- SELECT id::text, email, name, role, password_hash, created_at
abbrev pub user_columns : List GoString
user_columns =
    str "id" ∷ str "email" ∷ str "name" ∷ str "role" ∷ str "password_hash" ∷ str "created_at" ∷ []

unfoldable pub scan_user : Dest User
scan_user = do
  id ← to_text
  email ← to_text
  name ← to_text
  role ← to_text
  password_hash ← to_text
  created_at ← to_time
  pure (record {
    id = id;
    email = email;
    name = name;
    role = role;
    password_hash = password_hash;
    created_at = created_at;
  })

-- monitorSelectSQL, and the RETURNING of CreateMonitor
abbrev pub monitor_columns : List GoString
monitor_columns =
    str "id"
    ∷ str "name"
    ∷ str "url"
    ∷ str "method"
    ∷ str "expected_status"
    ∷ str "interval_seconds"
    ∷ str "enabled"
    ∷ str "last_status"
    ∷ str "last_latency_ms"
    ∷ str "last_checked_at"
    ∷ str "created_at"
    ∷ str "updated_at"
    ∷ []

unfoldable pub scan_monitor : Dest Monitor
scan_monitor = do
  id ← to_text
  name ← to_text
  url ← to_text
  method ← to_text
  expected_status ← to_int
  interval_seconds ← to_int
  enabled ← to_bool
  last_status ← to_text
  last_latency_ms ← to_nullable to_int
  last_checked_at ← to_nullable to_time
  created_at ← to_time
  updated_at ← to_time
  pure (record {
    id = id;
    name = name;
    url = url;
    method = method;
    expected_status = expected_status;
    interval_seconds = interval_seconds;
    enabled = enabled;
    last_status = last_status;
    last_latency_ms = last_latency_ms;
    last_checked_at = last_checked_at;
    created_at = created_at;
    updated_at = updated_at;
  })

-- The list of CheckEvents
abbrev pub check_event_columns : List GoString
check_event_columns =
    str "id"
    ∷ str "monitor_id"
    ∷ str "status"
    ∷ str "latency_ms"
    ∷ str "status_code"
    ∷ str "message"
    ∷ str "checked_at"
    ∷ []

unfoldable pub scan_check_event : Dest CheckEvent
scan_check_event = do
  id ← to_text
  monitor_id ← to_text
  status ← to_text
  latency_ms ← to_nullable to_int
  status_code ← to_nullable to_int
  message ← to_nullable to_text
  checked_at ← to_time
  pure (record {
    id = id;
    monitor_id = monitor_id;
    status = status;
    latency_ms = latency_ms;
    status_code = status_code;
    message = message;
    checked_at = checked_at;
  })

-- The lists of ListIncidents, OpenIncident and ResolveIncident
abbrev pub incident_columns : List GoString
incident_columns =
    str "id"
    ∷ str "monitor_id"
    ∷ str "title"
    ∷ str "status"
    ∷ str "severity"
    ∷ str "opened_at"
    ∷ str "resolved_at"
    ∷ []

unfoldable pub scan_incident : Dest Incident
scan_incident = do
  id ← to_text
  monitor_id ← to_nullable to_text
  title ← to_text
  status ← to_text
  severity ← to_text
  opened_at ← to_time
  resolved_at ← to_nullable to_time
  pure (record {
    id = id;
    monitor_id = monitor_id;
    title = title;
    status = status;
    severity = severity;
    opened_at = opened_at;
    resolved_at = resolved_at;
  })

-- The list of RecentJobRuns
abbrev pub job_run_columns : List GoString
job_run_columns =
    str "id"
    ∷ str "job_type"
    ∷ str "status"
    ∷ str "detail"
    ∷ str "created_at"
    ∷ str "started_at"
    ∷ str "finished_at"
    ∷ []

unfoldable pub scan_job_run : Dest JobRun
scan_job_run = do
  id ← to_text
  job_type ← to_text
  status ← to_text
  detail ← to_nullable to_text
  created_at ← to_time
  started_at ← to_nullable to_time
  finished_at ← to_nullable to_time
  pure (record {
    id = id;
    job_type = job_type;
    status = status;
    detail = detail;
    created_at = created_at;
    started_at = started_at;
    finished_at = finished_at;
  })

-- The lists of InsertMaintenanceRun, CompleteMaintenanceRun and RecentMaintenanceRuns
abbrev pub maintenance_run_columns : List GoString
maintenance_run_columns =
    str "id"
    ∷ str "task_name"
    ∷ str "status"
    ∷ str "output"
    ∷ str "started_at"
    ∷ str "finished_at"
    ∷ []

unfoldable pub scan_maintenance_run : Dest MaintenanceRun
scan_maintenance_run = do
  id ← to_text
  task_name ← to_text
  status ← to_text
  output ← to_nullable to_text
  started_at ← to_time
  finished_at ← to_nullable to_time
  pure (record {
    id = id;
    task_name = task_name;
    status = status;
    output = output;
    started_at = started_at;
    finished_at = finished_at;
  })
