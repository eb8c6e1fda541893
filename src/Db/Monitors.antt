-- ===== src/Db/Monitors.antt =====
-- The monitors of internal/db/store.go: listing, creation, deletion and what is due.
use go_fibe.Base.{
  ℕ, suc, ◌+◌, ◌*◌, ℤ, pos, pos_part, neg_part, ltb_ℤ, Bool, true, not, ◌&&◌, Option, none, some,
  List, [], ◌∷◌, ◌++◌, map, ltb, any, find, filter, take, sort_by, if◌then◌else◌,
}
use go_fibe.Base.Exec.{Result, ok, err}
use go_fibe.Strings.{GoString, str, ◌==◌}
use go_fibe.Models.{Monitor, MonitorInput, CheckEvent, Incident, Time}
use go_fibe.Db.Schema.{
  Tables, Uuid, Statement, DbError, no_rows, unique_violation, check_violation, with_uuid,
  with_text, with_int4, monitor_is, monitor_known,
}
use go_fibe.Db.Engine.{Action, query}
use go_fibe.Db.Incidents.{monitor_id_is}

abbrev newer : Monitor → Monitor → Bool
newer m n = ltb n.created_at m.created_at

unfoldable pub list_monitors : Action (List Monitor)
list_monitors = query λ now t. ok (sort_by newer t.monitors, t)

-- last_checked_at IS NULL OR last_checked_at < now() - interval_seconds
abbrev pub is_overdue : Time → Monitor → Bool
is_overdue now m = elim m.last_checked_at [
  | none ↦ true
  | some at ↦
      ltb (at + pos_part m.interval_seconds * 1000000) (now + neg_part m.interval_seconds * 1000000)
]

abbrev pub is_due : Time → Monitor → Bool
is_due now m = m.enabled && is_overdue now m

-- COALESCE(last_checked_at, 'epoch')
abbrev pub checked_or_epoch : Monitor → Time
checked_or_epoch m = elim m.last_checked_at [ none ↦ 0 | some at ↦ at ]

abbrev pub checked_earlier : Monitor → Monitor → Bool
checked_earlier m n = ltb (checked_or_epoch m) (checked_or_epoch n)

-- The rows of DueMonitors.
unfoldable pub due : Time → ℕ → List Monitor → List Monitor
due now limit monitors = take limit (sort_by checked_earlier (filter (is_due now) monitors))

unfoldable pub due_monitors : ℕ → Action (List Monitor)
due_monitors limit = query λ now t. ok (due now limit t.monitors, t)

-- CHECK (interval_seconds BETWEEN 15 AND 86400)
abbrev pub is_interval : ℤ → Bool
is_interval n = not (ltb_ℤ n (pos 15)) && not (ltb_ℤ (pos 86400) n)

-- The key of monitors_name_url_idx.
abbrev pub has_key : GoString → GoString → Monitor → Bool
has_key name url m = m.name == name && m.url == url

abbrev pub watched_by : GoString → CheckEvent → Bool
watched_by id e = e.monitor_id == id

-- ON DELETE SET NULL
abbrev pub forget : GoString → Incident → Incident
forget id i = record i { monitor_id = if monitor_id_is id i.monitor_id then none else i.monitor_id }

module _ ⦃u : Uuid⦄ where
  abbrev pub found : Option Monitor → Tables → Result DbError (Monitor × Tables)
  found none t = err no_rows
  found (some m) t = ok (m, t)

  unfoldable pub monitor_by_id : GoString → Action Monitor
  monitor_by_id s = query (with_uuid s λ id now t. found (find (monitor_is id) t.monitors) t)

  unfoldable pub monitor_exists : GoString → Action Bool
  monitor_exists s = query (with_uuid s λ id now t. ok (monitor_known id t, t))

  abbrev pub new_monitor : MonitorInput → Time → Tables → Monitor
  new_monitor input now t = record {
    id = u.gen_random t.draws;
    name = input.name;
    url = input.url;
    method = input.method;
    expected_status = input.expected_status;
    interval_seconds = input.interval_seconds;
    enabled = input.enabled;
    last_status = str "pending";
    last_latency_ms = none;
    last_checked_at = none;
    created_at = now;
    updated_at = now;
  }

  unfoldable pub insert_monitor : MonitorInput → Statement Monitor
  insert_monitor input now t =
      let m = new_monitor input now t in
      if is_interval input.interval_seconds
      then if any (has_key input.name input.url) t.monitors
        then err unique_violation
        else ok (m, record t { monitors = t.monitors ++ m ∷ []; draws = suc t.draws })
      else err check_violation

  unfoldable pub create_monitor_stmt : MonitorInput → Statement Monitor
  unfolding insert_monitor
  create_monitor_stmt input = with_text input.name (
      with_text input.url
        (with_text input.method (with_int4 input.expected_status (insert_monitor input))))

  unfoldable pub create_monitor : MonitorInput → Action Monitor
  unfolding create_monitor_stmt
  create_monitor input = query (create_monitor_stmt input)

  -- The rows that refer to the monitor go with it, or forget it.
  unfoldable pub delete_monitor_stmt : GoString → Statement Bool
  delete_monitor_stmt s = with_uuid s λ id now t. ok (
    monitor_known id t,
    record t {
      monitors = filter (λ m. not (monitor_is id m)) t.monitors;
      check_events = filter (λ e. not (watched_by id e)) t.check_events;
      incidents = map (forget id) t.incidents;
    },
  )

  unfoldable pub delete_monitor : GoString → Action Bool
  unfolding delete_monitor_stmt
  delete_monitor id = query (delete_monitor_stmt id)
