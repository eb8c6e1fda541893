-- ===== src/Models.antt =====
-- internal/models/models.go: the values that the components exchange. A `*T` is an `Option T`, and
-- a `time.Time` the number of microseconds since the epoch, PostgreSQL's resolution.
use go_fibe.Base.{ℕ, ℤ, Bool, Option}
use go_fibe.Strings.{GoString}

abbrev pub Time : Type 0
Time = ℕ

pub record User : Type 0 where
  pub id : GoString
  pub email : GoString
  pub name : GoString
  pub role : GoString
  pub password_hash : GoString
  pub created_at : Time

pub record CurrentUser : Type 0 where
  pub id : GoString
  pub email : GoString
  pub name : GoString
  pub role : GoString

pub record Monitor : Type 0 where
  pub id : GoString
  pub name : GoString
  pub url : GoString
  pub method : GoString
  pub expected_status : ℤ
  pub interval_seconds : ℤ
  pub enabled : Bool
  pub last_status : GoString
  pub last_latency_ms : Option ℤ
  pub last_checked_at : Option Time
  pub created_at : Time
  pub updated_at : Time

pub record CheckEvent : Type 0 where
  pub id : GoString
  pub monitor_id : GoString
  pub status : GoString
  pub latency_ms : Option ℤ
  pub status_code : Option ℤ
  pub message : Option GoString
  pub checked_at : Time

pub record Incident : Type 0 where
  pub id : GoString
  pub monitor_id : Option GoString
  pub title : GoString
  pub status : GoString
  pub severity : GoString
  pub opened_at : Time
  pub resolved_at : Option Time

pub record JobRun : Type 0 where
  pub id : GoString
  pub job_type : GoString
  pub status : GoString
  pub detail : Option GoString
  pub created_at : Time
  pub started_at : Option Time
  pub finished_at : Option Time

pub record MaintenanceRun : Type 0 where
  pub id : GoString
  pub task_name : GoString
  pub status : GoString
  pub output : Option GoString
  pub started_at : Time
  pub finished_at : Option Time

-- AVG of whole numbers, as the exact quotient (positive - negative) / rows.
pub record Average : Type 0 where
  pub positive : ℕ
  pub negative : ℕ
  pub rows : ℕ

pub record Dashboard : Type 0 where
  pub monitor_count : ℕ
  pub up_count : ℕ
  pub down_count : ℕ
  pub open_incident_count : ℕ
  pub avg_latency_ms : Option Average

pub record MaintenanceTask : Type 0 where
  pub name : GoString
  pub description : GoString
  pub dangerous : Bool

pub record MonitorInput : Type 0 where
  pub name : GoString
  pub url : GoString
  pub method : GoString
  pub expected_status : ℤ
  pub interval_seconds : ℤ
  pub enabled : Bool

pub record IncidentInput : Type 0 where
  pub monitor_id : Option GoString
  pub title : GoString
  pub severity : GoString
