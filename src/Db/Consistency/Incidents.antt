-- ===== src/Db/Consistency/Incidents.antt =====
-- The statements on incidents keep the tables consistent.
use go_fibe.Base.{
  ℕ, ◌≤◌, ◌≡◌, refl, inl, inr, Bool, true, false, ◌||◌, Option, none, some, [], ◌∷◌, ◌++◌, count,
  find, update, arith, Bool-cases, count-append, all-append,
}
use go_fibe.Base.Counting.{count-update-le, count_zero, all-update}
use go_fibe.Strings.{GoString, str, ◌==◌}
use go_fibe.Strings.Equality.{eq_sound}
use go_fibe.Models.{Monitor, Incident, IncidentInput}
use go_fibe.Db.Schema.{Tables, Uuid, is_severity}
use go_fibe.Db.Keeps.{
  Holds, Holds-if, Keeps, Keeps-with_uuid, Keeps-with_text, TxKeeps, TxKeeps-exec, TxKeeps-pure,
  TxKeeps-if,
}
use go_fibe.Db.Incidents.{
  is_open, monitor_id_is, is_open_for, incident_is, resolve, conflicts, refers, new_incident,
  add_incident, insert_incident, open_incident_stmt, resolve_incident_stmt, insert_open_incident,
  resolve_open_incidents, sync_incident_for_check, returning,
}
use go_fibe.Db.Consistency.{IsConsistent, known_or_null, is_dated}

resolve_closes : (now : ℕ) (i : Incident) → is_open (resolve now i) ≡ false
unfolding ◌==◌
resolve_closes now i = refl

resolve_dated : (now : ℕ) (i : Incident) → is_dated (resolve now i) ≡ true
unfolding ◌==◌
resolve_dated now i = refl

-- Resolving whatever incidents keeps the tables consistent.
pub resolve-IsConsistent :
    (q : Incident → Bool) (now : ℕ) (t : Tables)
    → IsConsistent t
    → IsConsistent (record t { incidents = update q (resolve now) t.incidents })
resolve-IsConsistent q now t c = record {
  one_open = λ id. omega (
    arith,
    c.one_open id,
    count-update-le (is_open_for id) q (resolve now) t.incidents
        (λ i _ h. ground (arith, resolve_closes now i)),
  );
  incidents_refer = all-update _ q (resolve now) t.incidents (λ i _ h. h) c.incidents_refer;
  incidents_dated =
      all-update is_dated q (resolve now) t.incidents (λ i _ _. resolve_dated now i)
        c.incidents_dated;
  events_refer = c.events_refer;
  keys_unique = c.keys_unique;
  intervals = c.intervals;
}

module _ ⦃u : Uuid⦄ where
  new_open :
      (m : Option GoString) (title severity id : GoString) (now : ℕ) (t : Tables)
      → is_open_for id (new_incident m title severity now t) ≡ monitor_id_is id m
  unfolding ◌==◌
  new_open m title severity id now t = refl

  -- A new open incident is the only one of its monitor, if the index let it in.
  open_count :
      (m : Option GoString) (title severity id : GoString) (now : ℕ) (t : Tables)
      → conflicts m t ≡ false
      → count (is_open_for id) t.incidents ≤ 1
      → count (is_open_for id) (t.incidents ++ new_incident m title severity now t ∷ []) ≤ 1
  open_count none title severity id now t free c =
      let i = new_incident none title severity now t in
      ground (
        arith,
        count-append (is_open_for id) t.incidents (i ∷ []),
        new_open none title severity id now t,
      )
  open_count (some m) title severity id now t free c =
      let i = new_incident (some m) title severity now t in
      elim (Bool-cases (m == id)) [
        | inl same ↦ ground (
          arith,
          count-append (is_open_for id) t.incidents (i ∷ []),
          rw (eq_sound m id same) at (count_zero (is_open_for m) t.incidents free),
          new_open (some m) title severity id now t,
        )
        | inr other ↦ ground (
          arith,
          count-append (is_open_for id) t.incidents (i ∷ []),
          new_open (some m) title severity id now t,
          other,
        )
      ]

  known_refers :
      (m : Option GoString) (t : Tables) → refers m t ≡ true → known_or_null t.monitors m ≡ true
  known_refers none t h = refl
  known_refers (some id) t h = h

  new_dated :
      (m : Option GoString) (title severity : GoString) (now : ℕ) (t : Tables)
      → is_dated (new_incident m title severity now t) ≡ true
  unfolding ◌==◌
  new_dated m title severity now t = refl

  add-IsConsistent :
      (m : Option GoString) (title severity : GoString) (now : ℕ) (t : Tables)
      → conflicts m t ≡ false
      → refers m t ≡ true
      → IsConsistent t
      → IsConsistent (add_incident (new_incident m title severity now t) t)
  add-IsConsistent m title severity now t free known c = record {
    one_open = λ id. open_count m title severity id now t free (c.one_open id);
    incidents_refer = ground (
      arith,
      all-append (λ i. known_or_null t.monitors i.monitor_id) t.incidents
          (new_incident m title severity now t ∷ []),
      known_refers m t known,
      c.incidents_refer,
    );
    incidents_dated = ground (
      arith,
      all-append is_dated t.incidents (new_incident m title severity now t ∷ []),
      new_dated m title severity now t,
      c.incidents_dated,
    );
    events_refer = c.events_refer;
    keys_unique = c.keys_unique;
    intervals = c.intervals;
  }

  insert_incident-IsConsistent :
      (m : Option GoString) (input : IncidentInput) → Keeps IsConsistent (insert_incident m input)
  unfolding insert_incident
  insert_incident-IsConsistent m input = record {
    at = λ now t c.
        Holds-if IsConsistent (is_severity input.severity) _ _
          (λ _.
            Holds-if IsConsistent (conflicts m t) _ _ (λ _. tt)
              (λ free.
                Holds-if IsConsistent (refers m t) _ _
                  (λ known. add-IsConsistent m input.title input.severity now t free known c)
                  (λ _. tt)))
          (λ _. tt);
  }

  -- OpenIncident
  pub open_incident_stmt-IsConsistent :
      (m : Option GoString) (input : IncidentInput)
      → Keeps IsConsistent (open_incident_stmt m input)
  unfolding open_incident_stmt
  open_incident_stmt-IsConsistent none input =
      Keeps-with_text IsConsistent input.title _ (insert_incident-IsConsistent none input)
  open_incident_stmt-IsConsistent (some s) input = Keeps-with_uuid IsConsistent s _ (λ id.
      Keeps-with_text IsConsistent input.title _ (insert_incident-IsConsistent (some id) input))

  returning-IsConsistent :
      (o : Option Incident) (t : Tables) → IsConsistent t → Holds IsConsistent (returning o t)
  returning-IsConsistent none t c = tt
  returning-IsConsistent (some i) t c = c

  -- ResolveIncident
  pub resolve_incident_stmt-IsConsistent :
      (s : GoString) → Keeps IsConsistent (resolve_incident_stmt s)
  unfolding resolve_incident_stmt
  resolve_incident_stmt-IsConsistent s = Keeps-with_uuid IsConsistent s _ (λ id. record {
    at = λ now t c.
        returning-IsConsistent
          (find (incident_is id) (update (incident_is id) (resolve now) t.incidents)) _
          (resolve-IsConsistent (incident_is id) now t c);
  })

  resolve_open_incidents-IsConsistent :
      (s : GoString) → Keeps IsConsistent (resolve_open_incidents s)
  unfolding resolve_open_incidents
  resolve_open_incidents-IsConsistent s =
      Keeps-with_uuid IsConsistent s _
        (λ id. record { at = λ now t c. resolve-IsConsistent (is_open_for id) now t c })

  insert_open_incident-IsConsistent :
      (s title severity : GoString) → Keeps IsConsistent (insert_open_incident s title severity)
  unfolding insert_open_incident
  insert_open_incident-IsConsistent s title severity = Keeps-with_uuid IsConsistent s _ (λ id.
      Keeps-with_text IsConsistent title _ (record {
        at = λ now t c.
            Holds-if IsConsistent (is_severity severity) _ _
              (λ _.
                Holds-if IsConsistent (conflicts (some id) t) _ _ (λ _. c)
                  (λ free.
                    Holds-if IsConsistent (refers (some id) t) _ _
                      (λ known. add-IsConsistent (some id) title severity now t free known c)
                      (λ _. tt)))
              (λ _. tt);
      }))

  -- syncIncidentForCheck
  pub sync-IsConsistent :
      (monitor : Monitor) (status : GoString) (message : Option GoString)
      → TxKeeps IsConsistent (sync_incident_for_check monitor status message)
  unfolding sync_incident_for_check
  sync-IsConsistent monitor status message =
      TxKeeps-if IsConsistent (status == str "down" || status == str "degraded") _ _
        (TxKeeps-exec IsConsistent _ (insert_open_incident-IsConsistent monitor.id _ _))
        (TxKeeps-if IsConsistent (status == str "up") _ _
          (TxKeeps-exec IsConsistent _ (resolve_open_incidents-IsConsistent monitor.id))
          (TxKeeps-pure IsConsistent tt))
