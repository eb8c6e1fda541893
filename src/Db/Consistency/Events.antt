-- ===== src/Db/Consistency/Events.antt =====
-- The statements on check events keep the tables consistent, and so does the whole of
-- InsertCheckEvent.
use go_fibe.Base.{
  ℕ, ℤ, ◌≡◌, refl, true, not, ◌&&◌, Option, none, some, List, [], ◌∷◌, ◌∙◌, all, filter, arith,
  all-append,
}
use go_fibe.Base.Counting.{all-filter}
use go_fibe.Strings.{GoString}
use go_fibe.Models.{Monitor, CheckEvent, Time}
use go_fibe.Db.Schema.{Tables, Uuid, Statement, monitor_known, is_check_status, is_monitor_status}
use go_fibe.Db.Keeps.{
  Holds-if, Keeps, Keeps-with_uuid, Keeps-with_text, Keeps-with_int4, TxKeeps, TxKeeps-exec,
  TxKeeps-bind,
}
use go_fibe.Db.CheckEvents.{
  with_optional_text, with_optional_int4, checked, new_check_event, insert_check_event_row,
  update_monitor_status, check_event_tx, is_old,
}
use go_fibe.Db.Consistency.{IsConsistent, is_known}
use go_fibe.Db.Consistency.Incidents.{sync-IsConsistent}
use go_fibe.Db.Consistency.Changes.{IsUpdate, update-IsConsistent}

module _ {A : Type 0} (P : Tables → Type 0) where
  Keeps-with_optional_text :
      (s : Option GoString) (body : Statement A)
      → Keeps P body
      → Keeps P (with_optional_text s body)
  Keeps-with_optional_text none body h = h
  Keeps-with_optional_text (some s) body h = Keeps-with_text P s body h

  Keeps-with_optional_int4 :
      (n : Option ℤ) (body : Statement A) → Keeps P body → Keeps P (with_optional_int4 n body)
  Keeps-with_optional_int4 none body h = h
  Keeps-with_optional_int4 (some n) body h = Keeps-with_int4 P n body h

checked-IsUpdate :
    (status : GoString) (latency : Option ℤ) (now : Time) → IsUpdate (checked status latency now)
checked-IsUpdate status latency now = record {
  same_id = λ m. refl;
  same_name = λ m. refl;
  same_url = λ m. refl;
  right_interval = λ m i. i;
}

events-IsConsistent :
    (events : List CheckEvent) (t : Tables) (draws : ℕ)
    → all (λ e. is_known t.monitors e.monitor_id) events ≡ true
    → IsConsistent t
    → IsConsistent (record t { check_events = events; draws = draws })
events-IsConsistent events t draws h c = record {
  one_open = c.one_open;
  incidents_refer = c.incidents_refer;
  incidents_dated = c.incidents_dated;
  events_refer = h;
  keys_unique = c.keys_unique;
  intervals = c.intervals;
}

-- PruneEvents
pub prune-IsConsistent :
    (now : Time) (t : Tables)
    → IsConsistent t
    → IsConsistent (record t { check_events = filter (λ e. not (is_old now e)) t.check_events })
prune-IsConsistent now t c =
    events-IsConsistent _ t t.draws
      (all-filter (λ (e : CheckEvent). is_known t.monitors e.monitor_id) _ _ t.check_events
        (λ e _ h. h) c.events_refer)
      c

module _ ⦃u : Uuid⦄ where
  insert_check_event_row-IsConsistent :
      (s status : GoString) (latency code : Option ℤ) (message : Option GoString)
      → Keeps IsConsistent (insert_check_event_row s status latency code message)
  unfolding insert_check_event_row
  insert_check_event_row-IsConsistent s status latency code message =
      Keeps-with_uuid IsConsistent s _ (λ id. Keeps-with_optional_int4 IsConsistent latency _ (
        Keeps-with_optional_int4 IsConsistent code _ (
          Keeps-with_optional_text IsConsistent message _ (record {
            at = λ now t c.
                Holds-if IsConsistent (is_check_status status) _ _
                  (λ _.
                    Holds-if IsConsistent (monitor_known id t) _ _
                      (λ known.
                        events-IsConsistent _ t _
                          (all-append (λ (e : CheckEvent). is_known t.monitors e.monitor_id)
                              t.check_events
                              (new_check_event id status latency code message now t ∷ [])
                            ∙ ground (arith, c.events_refer))
                          c)
                      (λ _. tt))
                  (λ _. tt);
          }))))

  update_monitor_status-IsConsistent :
      (s status : GoString) (latency : Option ℤ)
      → Keeps IsConsistent (update_monitor_status s status latency)
  unfolding update_monitor_status
  update_monitor_status-IsConsistent s status latency = Keeps-with_uuid IsConsistent s _ (λ id.
      Keeps-with_optional_int4 IsConsistent latency _ (record {
        at = λ now t c.
            Holds-if IsConsistent (monitor_known id t && not (is_monitor_status status)) _ _
              (λ _. tt)
              (λ _.
                update-IsConsistent _ (checked status latency now) t
                  (checked-IsUpdate status latency now) c);
      }))

  -- The body of InsertCheckEvent's transaction
  pub check_event_tx-IsConsistent :
      (monitor : Monitor) (status : GoString) (latency code : Option ℤ) (message : Option GoString)
      → TxKeeps IsConsistent (check_event_tx monitor status latency code message)
  unfolding check_event_tx
  check_event_tx-IsConsistent monitor status latency code message =
      TxKeeps-bind IsConsistent _ _
        (TxKeeps-exec IsConsistent _
          (insert_check_event_row-IsConsistent monitor.id status latency code message))
        (λ _.
          TxKeeps-bind IsConsistent _ _
            (TxKeeps-exec IsConsistent _
              (update_monitor_status-IsConsistent monitor.id status latency))
            (λ _. sync-IsConsistent monitor status message))
