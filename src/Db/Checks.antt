-- ===== src/Db/Checks.antt =====
-- InsertCheckEvent of internal/db/store.go, and the incidents that a check opens and resolves.
use go_fibe.Base.{
  ℕ, ◌≤◌, ℤ, ◌≡◌, ◌∙◌, refl, ap, ◌||◌, Option, some, List, [], ◌∷◌, count, update, arith,
  count-append, if◌then◌else◌,
}
use go_fibe.Base.Counting.{count-update_clear, count_pos, count_zero}
use go_fibe.Base.Exec.{Result, ok, err}
use go_fibe.Strings.{GoString, str, ◌==◌}
use go_fibe.Strings.Equality.{eq_refl}
use go_fibe.Models.{Monitor, Incident, Time}
use go_fibe.Db.Schema.{Tables, Uuid, DbError}
use go_fibe.Db.Engine.{Store}
use go_fibe.Db.Effects.{Atomic, transaction-Atomic}
use go_fibe.Db.Incidents.{is_open_for, resolve, new_incident, reason_of, title_of}
use go_fibe.Db.CheckEvents.{insert_check_event}
use go_fibe.Db.Consistency.{IsConsistent}
use go_fibe.Db.Recording.{
  canon, add_event, mark_checked, sync, record_check, open_unless, tx-TxDoes,
}

module _ ⦃u : Uuid⦄ where
  -- InsertCheckEvent that returns without an error has recorded the whole of a check: the event,
  -- the monitor's new status and the change of its incidents; one that returns an error has
  -- recorded the whole of it or nothing.
  pub insert_check_event-Atomic :
      (m : Monitor) (status : GoString) (latency code : Option ℤ) (message : Option GoString)
      (s : Store)
      → Atomic s.tables
          (record_check m status latency code message (s.clock s.calls) s.tables)
          (insert_check_event m status latency code message s).0
          (insert_check_event m status latency code message s).1.tables
  unfolding insert_check_event
  insert_check_event-Atomic m status latency code message s =
      transaction-Atomic _ _ (tx-TxDoes m status latency code message) s

  -- How many incidents are open for the monitor after a check.
  abbrev pub open_after : GoString → ℕ → ℕ
  open_after status before =
      if status == str "up"
      then 0
      else if status == str "down" || status == str "degraded"
      then 1
      else before

  opened :
      (id title severity : GoString) (now : Time) (t : Tables)
      → count (is_open_for id) t.incidents ≤ 1
      → count (is_open_for id) (open_unless id title severity now t).incidents ≡ 1
  unfolding ◌==◌
  opened id title severity now t c =
      let i = new_incident (some id) title severity now t in
      ground (
        arith,
        count_pos (is_open_for id) t.incidents,
        count_zero (is_open_for id) t.incidents,
        count-append (is_open_for id) t.incidents (i ∷ []),
        eq_refl id,
      )

  resolved :
      (id : GoString) (now : Time) (is : List Incident)
      → count (is_open_for id) (update (is_open_for id) (resolve now) is) ≡ 0
  unfolding ◌==◌
  resolved id now is = count-update_clear (is_open_for id) (resolve now) is (λ i. refl)

  sync_opens :
      (id name status : GoString) (message : Option GoString) (now : Time) (t : Tables)
      → count (is_open_for id) t.incidents ≤ 1
      → count (is_open_for id) (sync id name status message now t).incidents
        ≡ open_after status (count (is_open_for id) t.incidents)
  unfolding sync
  sync_opens id name status message now t c = ground (
    arith,
    resolved id now t.incidents,
    opened id (title_of name status (reason_of message)) (str "major") now t c,
    opened id (title_of name status (reason_of message)) (str "minor") now t c,
  )

  pub success :
      (old new : Tables) (r : Result DbError (Unit {0})) (t : Tables)
      → Atomic old new r t
      → r ≡ ok tt
      → t ≡ new
  success old new (ok a) t h e = h
  success old new (err x) t h e = cc

  -- From consistent tables, a recorded check leaves no open incident for its monitor when it found
  -- the monitor up, exactly one when it found it down or degraded, and otherwise as many as there
  -- were.
  pub incident_follows_check :
      (m : Monitor) (status : GoString) (latency code : Option ℤ) (message : Option GoString)
      (s : Store)
      → IsConsistent s.tables
      → (insert_check_event m status latency code message s).0 ≡ ok tt
      → count
          (is_open_for (canon m.id))
          (insert_check_event m status latency code message s).1.tables.incidents
        ≡ open_after status (count (is_open_for (canon m.id)) s.tables.incidents)
  unfolding record_check add_event mark_checked
  incident_follows_check m status latency code message s c e =
      ap (λ (t : Tables). count (is_open_for (canon m.id)) t.incidents)
        (success s.tables _ _ _ (insert_check_event-Atomic m status latency code message s) e)
      ∙ sync_opens (canon m.id) m.name status message (s.clock s.calls)
          (mark_checked (canon m.id) status latency (s.clock s.calls)
            (add_event (canon m.id) status latency code message (s.clock s.calls) s.tables))
          (c.one_open (canon m.id))
