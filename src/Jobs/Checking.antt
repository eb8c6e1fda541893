-- ===== src/Jobs/Checking.antt =====
-- What CheckMonitor of internal/jobs/jobs.go concludes and records.
use go_fibe.Base.{
  ℕ, ◌≡◌, ◌∙◌, ap, sym, refl, ◌↔◌, true, Option, none, some, arith, eqb_ℤ→eq, inl, inr, Bool-cases,
  find,
}
use go_fibe.Base.Exec.{Result, ok, err, pure, ◌>>◌, bind_ok}
use go_fibe.Strings.{GoString, str}
use go_fibe.Models.{Monitor}
use go_fibe.Config.{Config}
use go_fibe.Security.{ensure_monitor_url_allowed, UrlError}
use go_fibe.Db.Schema.{Tables, Uuid, monitor_is}
use go_fibe.Db.Engine.{Store}
use go_fibe.Db.Keeps.{Holds, Keeps-with_uuid, query_keeps}
use go_fibe.Db.Monitors.{monitor_by_id, found}
use go_fibe.Db.CheckEvents.{insert_check_event}
use go_fibe.Db.Checks.{insert_check_event-Atomic, success}
use go_fibe.Db.Recording.{record_check}
use go_fibe.App.{
  App, AppAction, Outside, Fetch, failed, responded, on_store, on_redis, discard, publish_event,
}
use go_fibe.Redis
use go_fibe.Jobs.{record_check_result, check_monitor, check_and_record, dashboard_keys, event_of}
use go_fibe.Jobs.Observing.{observe, allowed_or, observed, Observation}
use go_fibe.Jobs.Queueing.{publish_event_apart, on_store_ok}

observed_up_iff :
    (m : Monitor) (f : Fetch)
    → ((observed m f).status ≡ str "up")
      ↔ ((latency : ℕ) × (f ≡ responded latency m.expected_status))
observed_up_iff m (failed latency) = (λ h. ground arith, λ h. cc (h.1))
observed_up_iff m (responded latency code) = (
  λ h. (latency, ap (responded latency) (eqb_ℤ→eq code m.expected_status (ground arith))),
  λ h. ground (arith, h.1),
)

allowed_up_iff :
    (o : Outside) (m : Monitor) (r : Result UrlError (Unit {0}))
    → ((allowed_or o m r).status ≡ str "up") ↔ (
        (r ≡ ok tt)
        × (o.accepts_request m.method m.url ≡ true)
        × ((latency : ℕ) × (o.fetch m.method m.url ≡ responded latency m.expected_status)))
allowed_up_iff o m (err e) = (λ h. ground arith, λ h. cc (h.0))
allowed_up_iff o m (ok x) = elim (Bool-cases (o.accepts_request m.method m.url)) [
  | inl yes_please ↦
      let (to, from) = observed_up_iff m (o.fetch m.method m.url) in
      (λ h. (refl, yes_please, to (ground arith)), λ h. ground (arith, from h.2))
  | inr refused ↦ (λ h. ground arith, λ h. ground (arith, h.1))
]

-- A monitor counts as up exactly when its URL passes the policy, a request can be made, and the
-- site answers with the expected status.
pub observe_up_iff :
    (cfg : Config) (o : Outside) (m : Monitor)
    → ((observe cfg o m).status ≡ str "up") ↔ (
        (ensure_monitor_url_allowed o.net cfg m.url ≡ ok tt)
        × (o.accepts_request m.method m.url ≡ true)
        × ((latency : ℕ) × (o.fetch m.method m.url ≡ responded latency m.expected_status)))
unfolding observe
observe_up_iff cfg o m = allowed_up_iff o m (ensure_monitor_url_allowed o.net cfg m.url)

abbrev forget_cache : AppAction (Unit {0})
forget_cache = discard (on_redis (Redis.del dashboard_keys))

announce_store :
    (value : GoString) (a : App)
    → ((forget_cache >> (publish_event value >> pure tt)) a).1.store ≡ a.store
unfolding discard on_redis
announce_store value a =
    let cleared = (discard (on_redis (Redis.del dashboard_keys)) a).1 in
    ground (arith, publish_event_apart value cleared)

module _ ⦃u : Uuid⦄ where
  same_tables : (id : GoString) (s : Store) → (monitor_by_id id s).1.tables ≡ s.tables
  unfolding monitor_by_id
  same_tables id s =
      query_keeps (λ t. t ≡ s.tables) _
        (Keeps-with_uuid _ id _
          (λ c. record { at = λ now t p. reads (find (monitor_is c) t.monitors) t p }))
        s refl
    where
      reads :
          (o : Option Monitor) (t : Tables) → t ≡ s.tables → Holds (λ t'. t' ≡ s.tables) (found o t)
      reads none t p = tt
      reads (some m) t p = p

  record_check_result_ok :
      (m : Monitor) (o : Observation) (a : App)
      → (record_check_result m o a).0 ≡ ok tt
      → let insert = insert_check_event m o.status o.latency o.code (some o.detail) in
        ((insert a.store).0 ≡ ok tt) × ((record_check_result m o a).1.store ≡ (insert a.store).1)
  unfolding record_check_result on_store
  record_check_result_ok m o a h =
      let insert = insert_check_event m o.status o.latency o.code (some o.detail) in
      let event = event_of (str "monitor") m.id o.status in
      let rest = λ (x : Unit {0}). forget_cache >> (publish_event event >> pure tt) in
      let (x, e, same) = bind_ok (on_store insert) rest a h in
      (
        on_store_ok insert a tt e,
        ap (λ r. r.1.store) same ∙ announce_store event (on_store insert a).1,
      )

  -- When CheckMonitor returns without an error, it has looked up a monitor, observed it, and the
  -- whole of the record of that observation is in the tables, and nothing else changed there.
  pub check_monitor_ok :
      (id : GoString) (a : App)
      → (check_monitor id a).0 ≡ ok tt
      → (m : Monitor) × ((monitor_by_id id a.store).0 ≡ ok m)
        × let o = observe a.config a.outside m in
          let now = (monitor_by_id id a.store).1.clock (monitor_by_id id a.store).1.calls in
          ((check_monitor id a).1.store.tables
            ≡ record_check m o.status o.latency o.code (some o.detail) now a.store.tables)
  unfolding check_monitor on_store
  check_monitor_ok id a h =
      let (m, e, same) = bind_ok (on_store (monitor_by_id id)) check_and_record a h in
      let mid = (on_store (monitor_by_id id) a).1 in
      let o = observe mid.config mid.outside m in
      let (inserted, stored) = record_check_result_ok m o mid (ap (λ r. r.0) (sym same) ∙ h) in
      let now = mid.store.clock mid.store.calls in
      let recorded =
        insert_check_event-Atomic m o.status o.latency o.code (some o.detail) mid.store in
      (
        m,
        on_store_ok (monitor_by_id id) a m e,
        ap (λ r. r.1.store.tables) same
            ∙ ap (λ (s : Store). s.tables) stored
            ∙ success _ _ _ _ recorded inserted
            ∙ ap (record_check m o.status o.latency o.code (some o.detail) now)
                (same_tables id a.store),
      )
