-- ===== src/Db/Consistency.antt =====
-- What the schema's constraints and the code of internal/db/store.go keep true of the tables.
pub mod Changes
pub mod Incidents
pub mod Monitors
pub mod Events
use go_fibe.Base.{
  ℕ, ◌≤◌, ◌≡◌, Bool, true, false, ◌&&◌, ◌||◌, Option, none, some, List, count, all, any,
}
use go_fibe.Strings.{GoString, str, ◌==◌}
use go_fibe.Models.{Monitor, CheckEvent, Incident}
use go_fibe.Db.Schema.{Tables, monitor_is}
use go_fibe.Db.Incidents.{is_open, is_open_for}
use go_fibe.Db.Monitors.{has_key, is_interval}

abbrev pub is_known : List Monitor → GoString → Bool
is_known monitors id = any (monitor_is id) monitors

abbrev pub known_or_null : List Monitor → Option GoString → Bool
known_or_null monitors none = true
known_or_null monitors (some id) = is_known monitors id

abbrev is_null : Option ℕ → Bool
is_null none = true
is_null (some at) = false

-- Open and without a time of resolution, or resolved at some time.
abbrev pub is_dated : Incident → Bool
is_dated i = elim i.resolved_at [ none ↦ is_open i | some at ↦ i.status == str "resolved" ]

pub record IsConsistent (t : Tables) : Type 0 where
  pub one_open : (id : GoString) → count (is_open_for id) t.incidents ≤ 1
  pub incidents_refer : all (λ i. known_or_null t.monitors i.monitor_id) t.incidents ≡ true
  pub incidents_dated : all is_dated t.incidents ≡ true
  pub events_refer : all (λ e. is_known t.monitors e.monitor_id) t.check_events ≡ true
  pub keys_unique : (name url : GoString) → count (has_key name url) t.monitors ≤ 1
  pub intervals : all (λ m. is_interval m.interval_seconds) t.monitors ≡ true
