-- ===== src/Db/Schema.antt =====
-- The tables of migrations/202605070001_init.sql and the errors of a statement. Rows stand in the
-- order in which they were inserted.
use go_fibe.Base.{
  ℕ, ℤ, pos, negsuc, ◌≡◌, Bool, not, ◌&&◌, ◌||◌, eqb, Option, none, some, List, ltb, any,
  if◌then◌else◌,
}
use go_fibe.Base.Exec.{Result, err}
use go_fibe.Strings.{GoString, str, is_utf8, ◌==◌}
use go_fibe.Models.{User, Monitor, CheckEvent, Incident, JobRun, MaintenanceRun, Time}

pub record Tables : Type 0 where
  pub users : List User
  pub monitors : List Monitor
  pub check_events : List CheckEvent
  pub incidents : List Incident
  pub job_runs : List JobRun
  pub maintenance_runs : List MaintenanceRun
  -- How many identifiers gen_random_uuid() has drawn.
  pub draws : ℕ

pub data DbError : Type 0 where
  -- The connection failed, so the caller cannot tell whether the statement ran.
  unreachable : DbError
  -- pgx.ErrNoRows
  no_rows : DbError
  unique_violation : DbError
  foreign_key_violation : DbError
  check_violation : DbError
  -- A text that is no uuid, no valid UTF-8, or has a U+0000.
  invalid_text : DbError
  -- A number that does not fit the column's type.
  out_of_range : DbError

-- What the program relies on in PostgreSQL's uuid type: the text of a uuid is canonical, the cast
-- of a canonical text changes nothing, and gen_random_uuid() does not repeat itself.
pub record Uuid : Type 0 where
  pub cast : GoString → Option GoString
  pub gen_random : ℕ → GoString
  pub cast-cast : (s c : GoString) → cast s ≡ some c → cast c ≡ some c
  pub cast-gen_random : (n : ℕ) → cast (gen_random n) ≡ some (gen_random n)
  pub gen_random_injective : (n m : ℕ) → gen_random n ≡ gen_random m → n ≡ m

-- The meaning of one SQL statement at a time `now()`. A statement that fails changes nothing.
abbrev pub Statement : Type 0 → Type 0
Statement A = Time → Tables → Result DbError (A × Tables)

abbrev pub cast_ok : {A : Type 0} → Option GoString → (GoString → Statement A) → Statement A
cast_ok none body now t = err invalid_text
cast_ok (some id) body now t = body id now t

-- `$1::uuid`
abbrev pub with_uuid : {A : Type 0} ⦃u : Uuid⦄ → GoString → (GoString → Statement A) → Statement A
with_uuid ⦃u⦄ s body = cast_ok (u.cast s) body

-- A text that PostgreSQL takes: valid UTF-8 without U+0000.
abbrev pub is_text : GoString → Bool
is_text s = is_utf8 s && not (any (eqb 0) s)

-- A text parameter is refused where it is none.
abbrev pub with_text : {A : Type 0} → GoString → Statement A → Statement A
with_text s body now t = if is_text s then body now t else err invalid_text

abbrev pub fits_int4 : ℤ → Bool
fits_int4 (pos n) = ltb n 2147483648
fits_int4 (negsuc n) = ltb n 2147483648

-- An int4 column takes no larger number.
abbrev pub with_int4 : {A : Type 0} → ℤ → Statement A → Statement A
with_int4 n body now t = if fits_int4 n then body now t else err out_of_range

abbrev pub monitor_is : GoString → Monitor → Bool
monitor_is id m = m.id == id

-- REFERENCES monitors(id)
abbrev pub monitor_known : GoString → Tables → Bool
monitor_known id t = any (monitor_is id) t.monitors

-- CHECK (status IN ('up', 'down', 'degraded'))
abbrev pub is_check_status : GoString → Bool
is_check_status s = s == str "up" || s == str "down" || s == str "degraded"

-- CHECK (last_status IN ('pending', 'up', 'down', 'degraded'))
abbrev pub is_monitor_status : GoString → Bool
is_monitor_status s = s == str "pending" || is_check_status s

-- CHECK (severity IN ('minor', 'major', 'critical'))
abbrev pub is_severity : GoString → Bool
is_severity s = s == str "minor" || s == str "major" || s == str "critical"

-- CHECK (status IN ('queued', 'running', 'succeeded', 'failed'))
abbrev pub is_job_status : GoString → Bool
is_job_status s =
    s == str "queued" || s == str "running" || s == str "succeeded" || s == str "failed"

-- CHECK (status IN ('running', 'succeeded', 'failed'))
abbrev pub is_maintenance_status : GoString → Bool
is_maintenance_status s = s == str "running" || s == str "succeeded" || s == str "failed"
