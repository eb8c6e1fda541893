-- ===== src/Db/Rows.antt =====
-- How internal/db/store.go reads rows: the columns of its SELECT lists, by the tables of
-- migrations/202605070001_init.sql, and the destinations of its Scan calls, which take them in order.
pub mod Scans
pub mod Scanning
use go_fibe.Base.{ℤ, Bool, true, false, Option, none, some, List, [], ◌∷◌, if◌then◌else◌}
use go_fibe.Base.Exec.{Result, ok, err, Exec, pure, raise, ◌>>=◌, ◌>>◌}
use go_fibe.Strings.{GoString, str, ◌==◌}
use go_fibe.Models.{User, Monitor, CheckEvent, Incident, JobRun, MaintenanceRun, Time}

-- A value of a column: UUIDs are read as text, by the cast to text.
pub data Value : Type 0 where
  null : Value
  text : GoString → Value
  integer : ℤ → Value
  boolean : Bool → Value
  timestamp : Time → Value

abbrev pub Row : Type 0
Row = List (GoString × Value)

abbrev pub nullable : {A : Type 0} → (A → Value) → Option A → Value
nullable f none = null
nullable f (some a) = f a

abbrev pub user_row : User → Row
user_row x =
    (str "id", text x.id)
    ∷ (str "email", text x.email)
    ∷ (str "name", text x.name)
    ∷ (str "role", text x.role)
    ∷ (str "password_hash", text x.password_hash)
    ∷ (str "created_at", timestamp x.created_at)
    ∷ []

abbrev pub monitor_row : Monitor → Row
monitor_row m =
    (str "id", text m.id)
    ∷ (str "name", text m.name)
    ∷ (str "url", text m.url)
    ∷ (str "method", text m.method)
    ∷ (str "expected_status", integer m.expected_status)
    ∷ (str "interval_seconds", integer m.interval_seconds)
    ∷ (str "enabled", boolean m.enabled)
    ∷ (str "last_status", text m.last_status)
    ∷ (str "last_latency_ms", nullable integer m.last_latency_ms)
    ∷ (str "last_checked_at", nullable timestamp m.last_checked_at)
    ∷ (str "created_at", timestamp m.created_at)
    ∷ (str "updated_at", timestamp m.updated_at)
    ∷ []

abbrev pub check_event_row : CheckEvent → Row
check_event_row e =
    (str "id", text e.id)
    ∷ (str "monitor_id", text e.monitor_id)
    ∷ (str "status", text e.status)
    ∷ (str "latency_ms", nullable integer e.latency_ms)
    ∷ (str "status_code", nullable integer e.status_code)
    ∷ (str "message", nullable text e.message)
    ∷ (str "checked_at", timestamp e.checked_at)
    ∷ []

abbrev pub incident_row : Incident → Row
incident_row i =
    (str "id", text i.id)
    ∷ (str "monitor_id", nullable text i.monitor_id)
    ∷ (str "title", text i.title)
    ∷ (str "status", text i.status)
    ∷ (str "severity", text i.severity)
    ∷ (str "opened_at", timestamp i.opened_at)
    ∷ (str "resolved_at", nullable timestamp i.resolved_at)
    ∷ []

abbrev pub job_run_row : JobRun → Row
job_run_row j =
    (str "id", text j.id)
    ∷ (str "job_type", text j.job_type)
    ∷ (str "status", text j.status)
    ∷ (str "detail", nullable text j.detail)
    ∷ (str "started_at", nullable timestamp j.started_at)
    ∷ (str "finished_at", nullable timestamp j.finished_at)
    ∷ (str "created_at", timestamp j.created_at)
    ∷ []

abbrev pub maintenance_run_row : MaintenanceRun → Row
maintenance_run_row r =
    (str "id", text r.id)
    ∷ (str "task_name", text r.task_name)
    ∷ (str "status", text r.status)
    ∷ (str "output", nullable text r.output)
    ∷ (str "started_at", timestamp r.started_at)
    ∷ (str "finished_at", nullable timestamp r.finished_at)
    ∷ []

-- Scan into a destination of another type, of NULL into one that is no pointer, or into too few or
-- too many destinations.
pub data ScanError : Type 0 where
  no_column mismatch wrong_number : ScanError
  -- The rows ended early.
  interrupted : ScanError

-- The value of a column.
pub column : GoString → Row → Result ScanError Value
column name [] = err no_column
column name ((n, v) ∷ row) = let rest = column name row in if n == name then ok v else rest

abbrev with_value :
    Result ScanError Value → Result ScanError (List Value) → Result ScanError (List Value)
with_value (ok v) (ok vs) = ok (v ∷ vs)
with_value (ok v) (err e) = err e
with_value (err e) vs = err e

-- What a SELECT list takes of a row.
unfoldable pub select : List GoString → Row → Result ScanError (List Value)
unfolding column
select [] row = ok []
select (name ∷ names) row = with_value (column name row) (select names row)

-- A destination takes the next value.
abbrev pub Dest : Type 0 → Type 0
Dest A = Exec (List Value) ScanError A

-- *string, *int, *bool and *time.Time
pub to_text : Dest GoString
to_text (text s ∷ rest) = (ok s, rest)
to_text vs = (err mismatch, vs)

pub to_int : Dest ℤ
to_int (integer n ∷ rest) = (ok n, rest)
to_int vs = (err mismatch, vs)

pub to_bool : Dest Bool
to_bool (boolean b ∷ rest) = (ok b, rest)
to_bool vs = (err mismatch, vs)

pub to_time : Dest Time
to_time (timestamp t ∷ rest) = (ok t, rest)
to_time vs = (err mismatch, vs)

module _ {A : Type 0} where
  abbrev some_of : Result ScanError A × List Value → Result ScanError (Option A) × List Value
  some_of (ok a, rest) = (ok (some a), rest)
  some_of (err e, rest) = (err e, rest)

  -- A destination that is a pointer takes NULL as nil.
  pub to_nullable : Dest A → Dest (Option A)
  to_nullable d (null ∷ rest) = (ok none, rest)
  to_nullable d (text s ∷ rest) = some_of (d (text s ∷ rest))
  to_nullable d (integer n ∷ rest) = some_of (d (integer n ∷ rest))
  to_nullable d (boolean b ∷ rest) = some_of (d (boolean b ∷ rest))
  to_nullable d (timestamp t ∷ rest) = some_of (d (timestamp t ∷ rest))
  to_nullable d [] = (err mismatch, [])

  abbrev complete : Result ScanError A × List Value → Result ScanError A
  complete (ok a, []) = ok a
  complete (ok a, v ∷ vs) = err wrong_number
  complete (err e, vs) = err e

  abbrev scanned : Dest A → Result ScanError (List Value) → Result ScanError A
  scanned d (ok vs) = complete (d vs)
  scanned d (err e) = err e

  abbrev cons_ok : Result ScanError A → Result ScanError (List A) → Result ScanError (List A)
  cons_ok (ok x) (ok xs) = ok (x ∷ xs)
  cons_ok (ok x) (err e) = err e
  cons_ok (err e) xs = err e

  abbrev ended : Bool → Result ScanError (List A)
  ended true = err interrupted
  ended false = ok []

  -- The loop over rows.Next(), for the columns of a SELECT list; `broken` says whether rows.Err()
  -- is an error at its end.
  unfoldable pub scan_rows : Dest A → List GoString → Bool → List Row → Result ScanError (List A)
  unfolding select
  scan_rows d names broken [] = ended broken
  scan_rows d names broken (row ∷ rows) =
      cons_ok (scanned d (select names row)) (scan_rows d names broken rows)
