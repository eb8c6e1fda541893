-- ===== src/Db/Consistency/Changes.antt =====
-- Changes of monitors that keep the tables consistent.
use go_fibe.Base.{
  ℕ, ◌≤◌, ◌≡◌, refl, inl, inr, Bool, true, false, not, Option, none, some, List, [], ◌∷◌, ◌++◌,
  count, any, filter, update, map, arith, Bool-cases, count-append, all-append, any-append, ap, ◌∙◌,
  if◌then◌else◌,
}
use go_fibe.Base.Counting.{
  count-update-le, count-filter-le, count-map-le, count_zero, any-update, any-filter, all-update,
  all-map, all-filter, all_mono,
}
use go_fibe.Strings.{GoString, ◌==◌}
use go_fibe.Strings.Equality.{eq_sound}
use go_fibe.Models.{Monitor, CheckEvent, Incident}
use go_fibe.Db.Schema.{Tables, monitor_is}
use go_fibe.Db.Incidents.{is_open_for, monitor_id_is}
use go_fibe.Db.Monitors.{has_key, is_interval, forget, watched_by}
use go_fibe.Db.Consistency.{IsConsistent, is_known, known_or_null, is_dated}

-- A change of monitors that leaves their identifiers and keys alone.
pub record IsUpdate (f : Monitor → Monitor) : Type 0 where
  pub same_id : (m : Monitor) → (f m).id ≡ m.id
  pub same_name : (m : Monitor) → (f m).name ≡ m.name
  pub same_url : (m : Monitor) → (f m).url ≡ m.url
  pub right_interval :
      (m : Monitor)
      → is_interval m.interval_seconds ≡ true
      → is_interval (f m).interval_seconds ≡ true

known-update :
    (q : Monitor → Bool) (f : Monitor → Monitor) (ms : List Monitor) (id : GoString)
    → IsUpdate f
    → is_known (update q f ms) id ≡ is_known ms id
known-update q f ms id u = any-update (monitor_is id) q f ms (λ m. ap (λ s. s == id) (u.same_id m))

known_or_null-update :
    (q : Monitor → Bool) (f : Monitor → Monitor) (ms : List Monitor) (m : Option GoString)
    → IsUpdate f
    → known_or_null ms m ≡ true
    → known_or_null (update q f ms) m ≡ true
known_or_null-update q f ms none u h = refl
known_or_null-update q f ms (some id) u h = known-update q f ms id u ∙ h

pub update-IsConsistent :
    (q : Monitor → Bool) (f : Monitor → Monitor) (t : Tables)
    → IsUpdate f
    → IsConsistent t
    → IsConsistent (record t { monitors = update q f t.monitors })
update-IsConsistent q f t u c = record {
  one_open = c.one_open;
  incidents_refer =
      all_mono (λ (i : Incident). known_or_null t.monitors i.monitor_id) _ t.incidents
        (λ i h. known_or_null-update q f t.monitors i.monitor_id u h) c.incidents_refer;
  incidents_dated = c.incidents_dated;
  events_refer =
      all_mono (λ (e : CheckEvent). is_known t.monitors e.monitor_id) _ t.check_events
        (λ e h. known-update q f t.monitors e.monitor_id u ∙ h) c.events_refer;
  keys_unique = λ name url. omega (
    arith,
    c.keys_unique name url,
    count-update-le (has_key name url) q f t.monitors
        (λ m _ h. ground (arith, u.same_name m, u.same_url m)),
  );
  intervals = all-update _ q f t.monitors (λ m _ h. u.right_interval m h) c.intervals;
}

known-append :
    (ms : List Monitor) (m : Monitor) (id : GoString)
    → is_known ms id ≡ true
    → is_known (ms ++ m ∷ []) id ≡ true
known-append ms m id h = ground (arith, any-append (monitor_is id) ms (m ∷ []))

known_or_null-append :
    (ms : List Monitor) (m : Monitor) (o : Option GoString)
    → known_or_null ms o ≡ true
    → known_or_null (ms ++ m ∷ []) o ≡ true
known_or_null-append ms m none h = refl
known_or_null-append ms m (some id) h = known-append ms m id h

key_count :
    (ms : List Monitor) (m : Monitor) (name url : GoString)
    → any (has_key m.name m.url) ms ≡ false
    → count (has_key name url) ms ≤ 1
    → count (has_key name url) (ms ++ m ∷ []) ≤ 1
key_count ms m name url free c = elim (Bool-cases (has_key name url m)) [
  | inl same ↦
      let e : count (has_key name url) ms ≡ 0 =
        rw (← eq_sound m.name name (ground arith), ← eq_sound m.url url (ground arith))
          (count_zero (has_key m.name m.url) ms free) in
      ground (arith, count-append (has_key name url) ms (m ∷ []), e)
  | inr other ↦ ground (arith, count-append (has_key name url) ms (m ∷ []), other)
]

-- A monitor with a new key and a permitted interval may be added, whatever identifier is drawn.
pub append-IsConsistent :
    (m : Monitor) (t : Tables) (draws : ℕ)
    → any (has_key m.name m.url) t.monitors ≡ false
    → is_interval m.interval_seconds ≡ true
    → IsConsistent t
    → IsConsistent (record t { monitors = t.monitors ++ m ∷ []; draws = draws })
append-IsConsistent m t draws free i c = record {
  one_open = c.one_open;
  incidents_refer =
      all_mono (λ (x : Incident). known_or_null t.monitors x.monitor_id) _ t.incidents
        (λ x h. known_or_null-append t.monitors m x.monitor_id h) c.incidents_refer;
  incidents_dated = c.incidents_dated;
  events_refer =
      all_mono (λ (e : CheckEvent). is_known t.monitors e.monitor_id) _ t.check_events
        (λ e h. known-append t.monitors m e.monitor_id h) c.events_refer;
  keys_unique = λ name url. key_count t.monitors m name url free (c.keys_unique name url);
  intervals =
      all-append (λ (x : Monitor). is_interval x.interval_seconds) t.monitors (m ∷ [])
      ∙ ground (arith, c.intervals);
}

known-delete :
    (ms : List Monitor) (id other : GoString)
    → (other == id) ≡ false
    → is_known (filter (λ m. not (monitor_is id m)) ms) other ≡ is_known ms other
known-delete ms id other ne =
    any-filter (monitor_is other) _ ms (λ m h. rw (eq_sound m.id other h) (ground arith))

forget_known :
    (ms : List Monitor) (id : GoString) (o : Option GoString)
    → known_or_null ms o ≡ true
    → known_or_null
        (filter (λ m. not (monitor_is id m)) ms)
        (if monitor_id_is id o then none else o)
      ≡ true
forget_known ms id none h = refl
forget_known ms id (some m) h = ground (arith, known-delete ms id m)

forget_open :
    (id m : GoString) (i : Incident) → is_open_for m (forget id i) ≡ true → is_open_for m i ≡ true
forget_open id m i h = ground arith

pub delete-IsConsistent :
    (id : GoString) (t : Tables)
    → IsConsistent t
    → IsConsistent (record t {
      monitors = filter (λ m. not (monitor_is id m)) t.monitors;
      check_events = filter (λ e. not (watched_by id e)) t.check_events;
      incidents = map (forget id) t.incidents;
    })
delete-IsConsistent id t c = record {
  one_open = λ m. omega (
    arith,
    c.one_open m,
    count-map-le (is_open_for m) (forget id) t.incidents (λ i h. forget_open id m i h),
  );
  incidents_refer =
      all-map (λ (i : Incident). known_or_null t.monitors i.monitor_id) _ (forget id) t.incidents
        (λ i h. forget_known t.monitors id i.monitor_id h) c.incidents_refer;
  incidents_dated = all-map is_dated is_dated (forget id) t.incidents (λ i h. h) c.incidents_dated;
  events_refer =
      all-filter (λ (e : CheckEvent). is_known t.monitors e.monitor_id) _ _ t.check_events
        (λ e kept h. known-delete t.monitors id e.monitor_id (ground arith) ∙ h) c.events_refer;
  keys_unique = λ name url. omega (
    arith,
    c.keys_unique name url,
    count-filter-le (has_key name url) (λ m. not (monitor_is id m)) t.monitors,
  );
  intervals =
      all-filter (λ (m : Monitor). is_interval m.interval_seconds) _ _ t.monitors (λ m _ h. h)
        c.intervals;
}
