-- ===== src/Db/Seeded.antt =====
-- The rows that Seed of internal/db/store.go writes, and those that it leaves.
use go_fibe.Base.{
  suc, pos, eqb_ℤ, ◌≡◌, ◌∙◌, refl, ap, sym, inl, inr, Bool, true, false, not, ◌&&◌, List, [], ◌∷◌,
  ◌++◌, any, all, filter, update, arith, Bool-cases, if◌then◌else◌,
}
use go_fibe.Strings.{GoString, str, ◌==◌}
use go_fibe.Strings.Equality.{eq_sound, eq_refl}
use go_fibe.Models.{User, Monitor, CheckEvent, Incident, JobRun, MaintenanceRun, Time}
use go_fibe.Db.Schema.{Tables, Uuid}
use go_fibe.Base.Upserts.{upsert, upserted_any, upserted_others, filter-upsert}
use go_fibe.Db.Monitors.{has_key}
use go_fibe.Db.Users.{
  DemoMonitor, admin_email, email_is, as_admin, new_admin, as_demo, new_demo, upsert_demo,
  upsert_demos,
}

-- A monitor as Seed leaves it.
abbrev pub is_seeded : DemoMonitor → Monitor → Bool
is_seeded d m =
    has_key d.name d.url m
    && eqb_ℤ m.interval_seconds d.interval
    && eqb_ℤ m.expected_status (pos 200)
    && m.enabled

abbrev pub is_demo : List DemoMonitor → Monitor → Bool
is_demo ds m = any (λ d. has_key d.name d.url m) ds

-- The names of the monitors differ, so that no monitor has the keys of two of them.
abbrev differs_from : DemoMonitor → DemoMonitor → Bool
differs_from d e = not (d.name == e.name)

abbrev are_distinct : List DemoMonitor → Bool
are_distinct [] = true
are_distinct (d ∷ ds) = all (differs_from d) ds && are_distinct ds

other_key :
    (d e : DemoMonitor) (m : Monitor)
    → differs_from d e ≡ true
    → is_seeded d m ≡ true
    → has_key e.name e.url m ≡ false
other_key d e m ne h = elim (Bool-cases (has_key e.name e.url m)) [
  | inl same ↦
      let p : d.name ≡ e.name =
        sym (eq_sound m.name d.name (ground arith)) ∙ eq_sound m.name e.name (ground arith) in
      let q : (d.name == e.name) ≡ true = rw p (eq_refl e.name) in ground (arith, q)
  | inr other ↦ other
]

abbrev is_listed : List DemoMonitor → DemoMonitor → Bool
is_listed ds d = any (λ e. d.name == e.name && d.url == e.url) ds

listed_key :
    (ds : List DemoMonitor) (d : DemoMonitor) (m : Monitor)
    → is_listed ds d ≡ true
    → has_key d.name d.url m ≡ true
    → is_demo ds m ≡ true
listed_key ds d m h k =
    rw (eq_sound m.name d.name (ground arith)) (rw (eq_sound m.url d.url (ground arith)) h)

-- The demo account as Seed leaves it.
abbrev pub is_admin : GoString → User → Bool
is_admin hash x = email_is admin_email x && x.role == str "admin" && x.password_hash == hash

-- What Seed does not write.
abbrev pub beside : Tables → List CheckEvent × List Incident × List JobRun × List MaintenanceRun
beside t = (t.check_events, t.incidents, t.job_runs, t.maintenance_runs)

if-same :
    {A : Type 0} (f : Tables → A) (b : Bool) (x y t : Tables)
    → f x ≡ f t
    → f y ≡ f t
    → f (if b then x else y) ≡ f t
if-same f true x y t p q = p
if-same f false x y t p q = q

module _ ⦃u : Uuid⦄ where
  upsert_demo_monitors :
      (d : DemoMonitor) (now : Time) (t : Tables)
      → (upsert_demo d now t).monitors
        ≡ upsert (has_key d.name d.url) (as_demo d now) (new_demo d now t) t.monitors
  unfolding upsert_demo
  upsert_demo_monitors d now t = ground arith

  seeded_by_upsert :
      (d : DemoMonitor) (now : Time) (t : Tables)
      → any (is_seeded d) (upsert_demo d now t).monitors ≡ true
  seeded_by_upsert d now t = rw (upsert_demo_monitors d now t) (
      upserted_any (has_key d.name d.url) (as_demo d now) (new_demo d now t) (is_seeded d)
        t.monitors (λ m h. ground arith) (ground (arith, eq_refl d.name, eq_refl d.url)))

  -- Later monitors of the list leave an earlier one as it is.
  still_seeded :
      (d : DemoMonitor) (ds : List DemoMonitor) (now : Time) (t : Tables)
      → all (differs_from d) ds ≡ true
      → any (is_seeded d) t.monitors ≡ true
      → any (is_seeded d) (upsert_demos ds now t).monitors ≡ true
  unfolding upsert_demos
  still_seeded d [] now t ne h = h
  still_seeded d (e ∷ ds) now t ne h = still_seeded d ds now (upsert_demo e now t) (ground arith) (
      rw (upsert_demo_monitors e now t) (
        upserted_others (has_key e.name e.url) (as_demo e now) (new_demo e now t) (is_seeded d)
          t.monitors (λ m k. other_key d e m (ground arith) k) h))

  pub all_seeded :
      (ds : List DemoMonitor) (now : Time) (t : Tables)
      → are_distinct ds ≡ true
      → all (λ d. any (is_seeded d) (upsert_demos ds now t).monitors) ds ≡ true
  unfolding upsert_demos
  all_seeded [] now t h = refl
  all_seeded (d ∷ ds) now t h =
      let first : any (is_seeded d) (upsert_demos ds now (upsert_demo d now t)).monitors ≡ true =
        still_seeded d ds now (upsert_demo d now t) (ground arith) (seeded_by_upsert d now t) in
      let rest = all_seeded ds now (upsert_demo d now t) (ground arith) in rw first rest

  -- The monitors under no key of the list are left alone.
  pub others_left :
      (all_of ds : List DemoMonitor) (now : Time) (t : Tables)
      → all (is_listed all_of) ds ≡ true
      → filter (λ m. not (is_demo all_of m)) (upsert_demos ds now t).monitors
        ≡ filter (λ m. not (is_demo all_of m)) t.monitors
  unfolding upsert_demos
  others_left all_of [] now t h = refl
  others_left all_of (d ∷ ds) now t h =
      let listed : is_listed all_of d ≡ true = ground arith in
      others_left all_of ds now (upsert_demo d now t) (ground arith)
      ∙ ap (λ ms. filter (λ m. not (is_demo all_of m)) ms) (upsert_demo_monitors d now t)
      ∙ filter-upsert (has_key d.name d.url) (as_demo d now) (new_demo d now t) (is_demo all_of)
          t.monitors (λ m k. listed_key all_of d m listed k) (λ m k. listed_key all_of d m listed k)
          listed

  one_beside : (d : DemoMonitor) (now : Time) (t : Tables) → beside (upsert_demo d now t) ≡ beside t
  unfolding upsert_demo
  one_beside d now t = if-same beside (any (has_key d.name d.url) t.monitors) _ _ t refl refl

  pub all_beside :
      (ds : List DemoMonitor) (now : Time) (t : Tables) → beside (upsert_demos ds now t) ≡ beside t
  unfolding upsert_demos
  all_beside [] now t = refl
  all_beside (d ∷ ds) now t = all_beside ds now (upsert_demo d now t) ∙ one_beside d now t

  abbrev pub admin_written : GoString → Time → Tables → Tables
  admin_written hash now t =
      if any (email_is admin_email) t.users
      then record t { users = update (email_is admin_email) (as_admin hash) t.users }
      else record t { users = t.users ++ new_admin hash now t ∷ []; draws = suc t.draws }

  pub users_left :
      (ds : List DemoMonitor) (now : Time) (t : Tables) → (upsert_demos ds now t).users ≡ t.users
  unfolding upsert_demos upsert_demo
  users_left [] now t = refl
  users_left (d ∷ ds) now t =
      users_left ds now (upsert_demo d now t)
      ∙ if-same (λ t. t.users) (any (has_key d.name d.url) t.monitors) _ _ t refl refl

  written_users :
      (hash : GoString) (now : Time) (t : Tables)
      → (admin_written hash now t).users
        ≡ upsert (email_is admin_email) (as_admin hash) (new_admin hash now t) t.users
  written_users hash now t = ground arith

  pub written_admin :
      (hash : GoString) (now : Time) (t : Tables)
      → any (is_admin hash) (admin_written hash now t).users ≡ true
  unfolding ◌==◌
  written_admin hash now t = rw (written_users hash now t) (
      upserted_any (email_is admin_email) (as_admin hash) (new_admin hash now t) (is_admin hash)
        t.users (λ x h. rw h (eq_refl hash)) (eq_refl hash))

  pub written_others :
      (hash : GoString) (now : Time) (t : Tables)
      → filter (λ x. not (email_is admin_email x)) (admin_written hash now t).users
        ≡ filter (λ x. not (email_is admin_email x)) t.users
  unfolding ◌==◌
  written_others hash now t = rw (written_users hash now t) (
      filter-upsert (email_is admin_email) (as_admin hash) (new_admin hash now t)
        (email_is admin_email) t.users (λ x h. h) (λ x h. h) refl)

  pub written_beside :
      (hash : GoString) (now : Time) (t : Tables) → beside (admin_written hash now t) ≡ beside t
  written_beside hash now t = if-same beside (any (email_is admin_email) t.users) _ _ t refl refl

  pub written_monitors :
      (hash : GoString) (now : Time) (t : Tables) → (admin_written hash now t).monitors ≡ t.monitors
  written_monitors hash now t =
      if-same (λ t. t.monitors) (any (email_is admin_email) t.users) _ _ t refl refl
