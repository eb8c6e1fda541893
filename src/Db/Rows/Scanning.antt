-- ===== src/Db/Rows/Scanning.antt =====
-- The SELECT lists and the Scan calls of internal/db/store.go fit.
use go_fibe.Base.{false, ◌≡◌, refl, ℤ, Option, none, some, List, [], ◌∷◌, map}
use go_fibe.Base.Exec.{ok}
use go_fibe.Strings.{GoString, ◌==◌}
use go_fibe.Models.{User, Monitor, CheckEvent, Incident, JobRun, MaintenanceRun, Time}
use go_fibe.Db.Rows.{
  Value, text, integer, timestamp, nullable, Row, user_row, monitor_row, check_event_row,
  incident_row, job_run_row, maintenance_run_row, column, select, Dest, to_text, to_int, to_bool,
  to_time, to_nullable, scanned, scan_rows,
}
use go_fibe.Db.Rows.Scans.{
  user_columns, scan_user, monitor_columns, scan_monitor, check_event_columns, scan_check_event,
  incident_columns, scan_incident, job_run_columns, scan_job_run, maintenance_run_columns,
  scan_maintenance_run,
}

int_or_nil :
    (n : Option ℤ) (rest : List Value)
    → to_nullable to_int (nullable integer n ∷ rest) ≡ (ok n, rest)
unfolding to_nullable to_int
int_or_nil none rest = refl
int_or_nil (some n) rest = refl

text_or_nil :
    (s : Option GoString) (rest : List Value)
    → to_nullable to_text (nullable text s ∷ rest) ≡ (ok s, rest)
unfolding to_nullable to_text
text_or_nil none rest = refl
text_or_nil (some n) rest = refl

time_or_nil :
    (t : Option Time) (rest : List Value)
    → to_nullable to_time (nullable timestamp t ∷ rest) ≡ (ok t, rest)
unfolding to_nullable to_time
time_or_nil none rest = refl
time_or_nil (some n) rest = refl

user_lem : (x : User) → scanned scan_user (select user_columns (user_row x)) ≡ ok x
unfolding scan_user select ◌==◌ column to_text to_time
user_lem x = refl

monitor_lem : (m : Monitor) → scanned scan_monitor (select monitor_columns (monitor_row m)) ≡ ok m
unfolding scan_monitor select ◌==◌ column to_text to_int to_bool to_time
monitor_lem m = rw (int_or_nil m.last_latency_ms _, time_or_nil m.last_checked_at _) refl

check_event_lem :
    (e : CheckEvent)
    → scanned scan_check_event (select check_event_columns (check_event_row e)) ≡ ok e
unfolding scan_check_event select ◌==◌ column to_text to_time
check_event_lem e =
    rw (int_or_nil e.latency_ms _, int_or_nil e.status_code _, text_or_nil e.message _) refl

incident_lem :
    (i : Incident) → scanned scan_incident (select incident_columns (incident_row i)) ≡ ok i
unfolding scan_incident select ◌==◌ column to_text to_time
incident_lem i = rw (text_or_nil i.monitor_id _, time_or_nil i.resolved_at _) refl

job_run_lem : (j : JobRun) → scanned scan_job_run (select job_run_columns (job_run_row j)) ≡ ok j
unfolding scan_job_run select ◌==◌ column to_text to_time
job_run_lem j =
    rw (text_or_nil j.detail _, time_or_nil j.started_at _, time_or_nil j.finished_at _) refl

maintenance_run_lem :
    (r : MaintenanceRun)
    → scanned scan_maintenance_run (select maintenance_run_columns (maintenance_run_row r)) ≡ ok r
unfolding scan_maintenance_run select ◌==◌ column to_text to_time
maintenance_run_lem r = rw (text_or_nil r.output _, time_or_nil r.finished_at _) refl

-- The tables that the program reads rows of.
pub data Table : Type 0 where
  users monitors check_events incidents job_runs maintenance_runs : Table

abbrev pub ModelOf : Table → Type 0
ModelOf users = User
ModelOf monitors = Monitor
ModelOf check_events = CheckEvent
ModelOf incidents = Incident
ModelOf job_runs = JobRun
ModelOf maintenance_runs = MaintenanceRun

abbrev pub row_of : (t : Table) → ModelOf t → Row
row_of users = user_row
row_of monitors = monitor_row
row_of check_events = check_event_row
row_of incidents = incident_row
row_of job_runs = job_run_row
row_of maintenance_runs = maintenance_run_row

abbrev pub columns_of : Table → List GoString
columns_of users = user_columns
columns_of monitors = monitor_columns
columns_of check_events = check_event_columns
columns_of incidents = incident_columns
columns_of job_runs = job_run_columns
columns_of maintenance_runs = maintenance_run_columns

abbrev pub scan_of : (t : Table) → Dest (ModelOf t)
scan_of users = scan_user
scan_of monitors = scan_monitor
scan_of check_events = scan_check_event
scan_of incidents = scan_incident
scan_of job_runs = scan_job_run
scan_of maintenance_runs = scan_maintenance_run

row_lem :
    (t : Table) (x : ModelOf t) → scanned (scan_of t) (select (columns_of t) (row_of t x)) ≡ ok x
row_lem users = user_lem
row_lem monitors = monitor_lem
row_lem check_events = check_event_lem
row_lem incidents = incident_lem
row_lem job_runs = job_run_lem
row_lem maintenance_runs = maintenance_run_lem

-- Of every table the columns of the SELECT list have, in their order, the types of the destinations
-- that Scan takes them into, NULLs included: reading any rows to their end gives back their models.
pub scan_rows-row_of :
    (t : Table) (xs : List (ModelOf t))
    → scan_rows (scan_of t) (columns_of t) false (map (row_of t) xs) ≡ ok xs
unfolding scan_rows
scan_rows-row_of t [] = refl
scan_rows-row_of t (x ∷ xs) = rw (row_lem t x, scan_rows-row_of t xs) refl
