-- ===== src/Db/CheckEvents.antt =====
-- The check events of internal/db/store.go: CheckEvents, InsertCheckEvent and PruneEvents.
use go_fibe.Base.{
  suc, ◌+◌, ◌*◌, ℤ, Bool, not, ◌&&◌, Option, none, some, List, [], ◌∷◌, ◌++◌, ltb, filter, update,
  take, sort_by, if◌then◌else◌,
}
use go_fibe.Base.Exec.{ok, err, Exec, ◌>>◌}
use go_fibe.Strings.{GoString}
use go_fibe.Models.{Monitor, CheckEvent, Time}
use go_fibe.Db.Schema.{
  Tables, Uuid, Statement, DbError, foreign_key_violation, check_violation, with_uuid, with_text,
  with_int4, monitor_is, monitor_known, is_check_status, is_monitor_status,
}
use go_fibe.Db.Engine.{Action, Tx, query, exec, transaction}
use go_fibe.Db.Incidents.{sync_incident_for_check}
use go_fibe.Db.Monitors.{watched_by}

abbrev newer : CheckEvent → CheckEvent → Bool
newer e f = ltb f.checked_at e.checked_at

-- A parameter that may be NULL.
abbrev pub with_optional_text : {A : Type 0} → Option GoString → Statement A → Statement A
with_optional_text none body = body
with_optional_text (some s) body = with_text s body

abbrev pub with_optional_int4 : {A : Type 0} → Option ℤ → Statement A → Statement A
with_optional_int4 none body = body
with_optional_int4 (some n) body = with_int4 n body

-- checked_at < now() - interval '14 days'
abbrev pub is_old : Time → CheckEvent → Bool
is_old now e = ltb (e.checked_at + 14 * 86400 * 1000000) now

unfoldable pub prune_events : Action (Unit {0})
prune_events =
    query
      λ now t. ok (tt, record t { check_events = filter (λ e. not (is_old now e)) t.check_events })

-- SET last_status = $2, last_latency_ms = $3, last_checked_at = now(), updated_at = now()
abbrev pub checked : GoString → Option ℤ → Time → Monitor → Monitor
checked status latency now m = record m {
  last_status = status;
  last_latency_ms = latency;
  last_checked_at = some now;
  updated_at = now;
}

module _ ⦃u : Uuid⦄ where
  unfoldable pub check_events : GoString → Action (List CheckEvent)
  check_events s = query (
      with_uuid s
        λ id now t. ok (take 50 (sort_by newer (filter (watched_by id) t.check_events)), t))

  abbrev pub new_check_event :
      GoString → GoString → Option ℤ → Option ℤ → Option GoString → Time → Tables → CheckEvent
  new_check_event id status latency code message now t = record {
    id = u.gen_random t.draws;
    monitor_id = id;
    status = status;
    latency_ms = latency;
    status_code = code;
    message = message;
    checked_at = now;
  }

  unfoldable pub insert_check_event_row :
      GoString → GoString → Option ℤ → Option ℤ → Option GoString → Statement (Unit {0})
  insert_check_event_row s status latency code message = with_uuid s λ id.
      with_optional_int4 latency (
        with_optional_int4 code (
          with_optional_text message λ now t.
            let e = new_check_event id status latency code message now t in
            if is_check_status status
            then if monitor_known id t
              then ok
                  (tt, record t { check_events = t.check_events ++ e ∷ []; draws = suc t.draws })
              else err foreign_key_violation
            else err check_violation))

  unfoldable pub update_monitor_status : GoString → GoString → Option ℤ → Statement (Unit {0})
  update_monitor_status s status latency = with_uuid s λ id. with_optional_int4 latency λ now t.
      if monitor_known id t && not (is_monitor_status status)
      then err check_violation
      else ok (
        tt,
        record t { monitors = update (monitor_is id) (checked status latency now) t.monitors },
      )

  unfoldable pub check_event_tx :
      Monitor → GoString → Option ℤ → Option ℤ → Option GoString → Exec Tx DbError (Unit {0})
  unfolding insert_check_event_row update_monitor_status sync_incident_for_check
  check_event_tx monitor status latency code message = do
    exec (insert_check_event_row monitor.id status latency code message)
    exec (update_monitor_status monitor.id status latency)
    sync_incident_for_check monitor status message

  unfoldable pub insert_check_event :
      Monitor → GoString → Option ℤ → Option ℤ → Option GoString → Action (Unit {0})
  unfolding check_event_tx
  insert_check_event monitor status latency code message =
      transaction (check_event_tx monitor status latency code message)
