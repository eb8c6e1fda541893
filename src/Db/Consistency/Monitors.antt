-- ===== src/Db/Consistency/Monitors.antt =====
-- The statements on monitors, and Seed, keep the tables consistent.
use go_fibe.Base.{◌≡◌, refl, inl, inr, true, List, [], ◌∷◌, all, any, arith, Bool-cases}
use go_fibe.Strings.{GoString}
use go_fibe.Models.{MonitorInput, Time}
use go_fibe.Db.Schema.{Tables, Uuid}
use go_fibe.Db.Keeps.{Holds-if, Keeps, Keeps-with_uuid, Keeps-with_text, Keeps-with_int4}
use go_fibe.Db.Monitors.{
  has_key, is_interval, new_monitor, insert_monitor, create_monitor_stmt, delete_monitor_stmt,
}
use go_fibe.Db.Users.{
  DemoMonitor, demo_monitors, as_demo, new_demo, upsert_demo, upsert_demos, seed_monitors,
}
use go_fibe.Db.Consistency.{IsConsistent}
use go_fibe.Db.Consistency.Changes.{
  IsUpdate, update-IsConsistent, append-IsConsistent, delete-IsConsistent,
}

as_demo-IsUpdate :
    (d : DemoMonitor) (now : Time) → is_interval d.interval ≡ true → IsUpdate (as_demo d now)
as_demo-IsUpdate d now i = record {
  same_id = λ m. refl;
  same_name = λ m. refl;
  same_url = λ m. refl;
  right_interval = λ m _. i;
}

module _ ⦃u : Uuid⦄ where
  insert_monitor-IsConsistent : (input : MonitorInput) → Keeps IsConsistent (insert_monitor input)
  unfolding insert_monitor
  insert_monitor-IsConsistent input = record {
    at = λ now t c.
        Holds-if IsConsistent (is_interval input.interval_seconds) _ _
          (λ i.
            Holds-if IsConsistent (any (has_key input.name input.url) t.monitors) _ _ (λ _. tt)
              (λ free. append-IsConsistent (new_monitor input now t) t _ free i c))
          (λ _. tt);
  }

  -- CreateMonitor
  pub create_monitor_stmt-IsConsistent :
      (input : MonitorInput) → Keeps IsConsistent (create_monitor_stmt input)
  unfolding create_monitor_stmt
  create_monitor_stmt-IsConsistent input = Keeps-with_text IsConsistent input.name _ (
      Keeps-with_text IsConsistent input.url _ (
        Keeps-with_text IsConsistent input.method _ (
          Keeps-with_int4 IsConsistent input.expected_status _
            (insert_monitor-IsConsistent input))))

  -- DeleteMonitor
  pub delete_monitor_stmt-IsConsistent : (s : GoString) → Keeps IsConsistent (delete_monitor_stmt s)
  unfolding delete_monitor_stmt
  delete_monitor_stmt-IsConsistent s =
      Keeps-with_uuid IsConsistent s _ (λ id. record { at = λ now t c. delete-IsConsistent id t c })

  upsert_demo-IsConsistent :
      (d : DemoMonitor) (now : Time) (t : Tables)
      → is_interval d.interval ≡ true
      → IsConsistent t
      → IsConsistent (upsert_demo d now t)
  unfolding upsert_demo
  upsert_demo-IsConsistent d now t i c = elim (Bool-cases (any (has_key d.name d.url) t.monitors)) [
    | inl old ↦
        rw old (
          update-IsConsistent (has_key d.name d.url) (as_demo d now) t (as_demo-IsUpdate d now i) c)
    | inr free ↦ rw free (append-IsConsistent (new_demo d now t) t _ free i c)
  ]

  upsert_demos-IsConsistent :
      (ds : List DemoMonitor) (now : Time) (t : Tables)
      → all (λ d. is_interval d.interval) ds ≡ true
      → IsConsistent t
      → IsConsistent (upsert_demos ds now t)
  unfolding upsert_demos
  upsert_demos-IsConsistent [] now t i c = c
  upsert_demos-IsConsistent (d ∷ ds) now t i c =
      upsert_demos-IsConsistent ds now (upsert_demo d now t) (ground arith)
        (upsert_demo-IsConsistent d now t (ground arith) c)

  -- The second statement of Seed
  pub seed_monitors-IsConsistent : Keeps IsConsistent seed_monitors
  unfolding seed_monitors
  seed_monitors-IsConsistent = record {
    at = λ now t c. upsert_demos-IsConsistent demo_monitors now t refl c;
  }
