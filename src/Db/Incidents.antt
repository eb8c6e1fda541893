-- ===== src/Db/Incidents.antt =====
-- The incidents of internal/db/store.go: ListIncidents, OpenIncident, ResolveIncident and
-- syncIncidentForCheck.
use go_fibe.Base.{
  ℕ, suc, Bool, true, false, ◌&&◌, ◌||◌, Option, none, some, List, [], ◌∷◌, ◌++◌, ltb, any, find,
  update, take, sort_by, if◌then◌else◌,
}
use go_fibe.Base.Exec.{Result, ok, err, Exec, pure}
use go_fibe.Strings.{GoString, str, ◌==◌, is_empty, trim_space}
use go_fibe.Models.{Monitor, Incident, IncidentInput}
use go_fibe.Db.Schema.{
  Tables, Uuid, Statement, DbError, no_rows, unique_violation, foreign_key_violation,
  check_violation, with_uuid, with_text, monitor_known, is_severity,
}
use go_fibe.Db.Engine.{Action, Tx, query, exec}

abbrev pub is_open : Incident → Bool
is_open i = i.status == str "open"

abbrev pub monitor_id_is : GoString → Option GoString → Bool
monitor_id_is id none = false
monitor_id_is id (some m) = m == id

-- The rows of the index incidents_one_open_per_monitor_idx for one monitor.
abbrev pub is_open_for : GoString → Incident → Bool
is_open_for id i = is_open i && monitor_id_is id i.monitor_id

abbrev pub incident_is : GoString → Incident → Bool
incident_is id i = i.id == id

-- SET status = 'resolved', resolved_at = now()
abbrev pub resolve : ℕ → Incident → Incident
resolve now i = record i { status = str "resolved"; resolved_at = some now }

-- nullableUUID
unfoldable pub nullable_uuid : Option GoString → Option GoString
nullable_uuid none = none
nullable_uuid (some value) = if is_empty (trim_space value) then none else some (trim_space value)

abbrev newer : Incident → Incident → Bool
newer i j = ltb j.opened_at i.opened_at

unfoldable pub list_incidents : Action (List Incident)
list_incidents = query λ now t. ok (take 50 (sort_by newer t.incidents), t)

module _ ⦃u : Uuid⦄ where
  abbrev pub new_incident : Option GoString → GoString → GoString → ℕ → Tables → Incident
  new_incident monitor_id title severity now t = record {
    id = u.gen_random t.draws;
    monitor_id = monitor_id;
    title = title;
    status = str "open";
    severity = severity;
    opened_at = now;
    resolved_at = none;
  }

  abbrev pub add_incident : Incident → Tables → Tables
  add_incident i t = record t { incidents = t.incidents ++ i ∷ []; draws = suc t.draws }

  -- Is there an open incident for the monitor, and is the monitor there?
  abbrev pub conflicts : Option GoString → Tables → Bool
  conflicts none t = false
  conflicts (some id) t = any (is_open_for id) t.incidents

  abbrev pub refers : Option GoString → Tables → Bool
  refers none t = true
  refers (some id) t = monitor_known id t

  -- The INSERT of OpenIncident, its monitor cast already.
  unfoldable pub insert_incident : Option GoString → IncidentInput → Statement Incident
  insert_incident monitor_id input now t =
      let i = new_incident monitor_id input.title input.severity now t in
      if is_severity input.severity
      then if conflicts monitor_id t
        then err unique_violation
        else if refers monitor_id t
        then ok (i, add_incident i t)
        else err foreign_key_violation
      else err check_violation

  unfoldable pub open_incident_stmt : Option GoString → IncidentInput → Statement Incident
  open_incident_stmt none input = with_text input.title (insert_incident none input)
  open_incident_stmt (some s) input =
      with_uuid s λ id. with_text input.title (insert_incident (some id) input)

  unfoldable pub open_incident : IncidentInput → Action Incident
  unfolding nullable_uuid open_incident_stmt
  open_incident input = query (open_incident_stmt (nullable_uuid input.monitor_id) input)

  abbrev pub returning : Option Incident → Tables → Result DbError (Incident × Tables)
  returning none t = err no_rows
  returning (some i) t = ok (i, t)

  unfoldable pub resolve_incident_stmt : GoString → Statement Incident
  resolve_incident_stmt s = with_uuid s λ id now t.
      let resolved = update (incident_is id) (resolve now) t.incidents in
      returning (find (incident_is id) resolved) (record t { incidents = resolved })

  unfoldable pub resolve_incident : GoString → Action Incident
  unfolding resolve_incident_stmt
  resolve_incident id = query (resolve_incident_stmt id)

  -- INSERT … ON CONFLICT (monitor_id) WHERE status = 'open' … DO NOTHING
  unfoldable pub insert_open_incident : GoString → GoString → GoString → Statement (Unit {0})
  insert_open_incident s title severity = with_uuid s λ id. with_text title λ now t.
      let i = new_incident (some id) title severity now t in
      if is_severity severity
      then if conflicts (some id) t
        then ok (tt, t)
        else if refers (some id) t
        then ok (tt, add_incident i t)
        else err foreign_key_violation
      else err check_violation

  unfoldable pub resolve_open_incidents : GoString → Statement (Unit {0})
  resolve_open_incidents s = with_uuid s λ id now t.
      ok (tt, record t { incidents = update (is_open_for id) (resolve now) t.incidents })

  abbrev pub reason_of : Option GoString → GoString
  reason_of none = str "monitor check failed"
  reason_of (some message) = if is_empty message then str "monitor check failed" else message

  abbrev pub title_of : GoString → GoString → GoString → GoString
  title_of name status reason = name ++ (str " is " ++ (status ++ (str ": " ++ reason)))

  -- syncIncidentForCheck
  unfoldable pub sync_incident_for_check :
      Monitor → GoString → Option GoString → Exec Tx DbError (Unit {0})
  unfolding insert_open_incident resolve_open_incidents
  sync_incident_for_check monitor status message =
      if status == str "down" || status == str "degraded"
      then (let severity = if status == str "down" then str "major" else str "minor" in
          exec (
            insert_open_incident monitor.id (title_of monitor.name status (reason_of message))
              severity))
      else if status == str "up"
      then exec (resolve_open_incidents monitor.id)
      else pure tt
