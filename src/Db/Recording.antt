-- ===== src/Db/Recording.antt =====
-- What the statements of InsertCheckEvent of internal/db/store.go do, as one change of the tables.
use go_fibe.Base.{
  suc, ℤ, ◌≡◌, ap, inl, inr, not, ◌&&◌, Option, none, some, [], ◌∷◌, ◌++◌, update, Bool-cases,
  if◌then◌else◌,
}
use go_fibe.Strings.{GoString, str, ◌==◌}
use go_fibe.Strings.Equality.{eq_sound}
use go_fibe.Models.{Monitor}
use go_fibe.Db.Schema.{
  Uuid, Statement, monitor_is, monitor_known, is_check_status, is_monitor_status, is_severity,
}
use go_fibe.Db.Keeps.{Holds-if}
use go_fibe.Db.Effects.{
  Effect, Does, Does-with_uuid, Does-with_text, Does-with_int4, TxDoes, TxDoes-exec, TxDoes-bind,
  TxDoes-pure,
}
use go_fibe.Db.Incidents.{
  is_open_for, resolve, refers, conflicts, new_incident, add_incident, insert_open_incident,
  resolve_open_incidents, sync_incident_for_check, reason_of, title_of,
}
use go_fibe.Db.CheckEvents.{
  with_optional_text, with_optional_int4, checked, new_check_event, insert_check_event_row,
  update_monitor_status, check_event_tx,
}

module _ {A : Type 0} (f : Effect) where
  Does-with_optional_text :
      (s : Option GoString) (body : Statement A) → Does f body → Does f (with_optional_text s body)
  Does-with_optional_text none body h = h
  Does-with_optional_text (some s) body h = Does-with_text f s body h

  Does-with_optional_int4 :
      (n : Option ℤ) (body : Statement A) → Does f body → Does f (with_optional_int4 n body)
  Does-with_optional_int4 none body h = h
  Does-with_optional_int4 (some n) body h = Does-with_int4 f n body h

-- The canonical form of an identifier, for one that the cast takes.
abbrev canon_or : GoString → Option GoString → GoString
canon_or s none = s
canon_or s (some id) = id

module _ ⦃u : Uuid⦄ where
  abbrev pub canon : GoString → GoString
  canon s = canon_or s (u.cast s)

  -- One check event more.
  unfoldable pub add_event : GoString → GoString → Option ℤ → Option ℤ → Option GoString → Effect
  add_event id status latency code message now t = record t {
    check_events = t.check_events ++ new_check_event id status latency code message now t ∷ [];
    draws = suc t.draws;
  }

  -- The monitor carries the result.
  unfoldable pub mark_checked : GoString → GoString → Option ℤ → Effect
  mark_checked id status latency now t = record t {
    monitors = update (monitor_is id) (checked status latency now) t.monitors;
  }

  -- A failure opens an incident unless one is open, a success resolves it.
  unfoldable pub sync : GoString → GoString → GoString → Option GoString → Effect
  sync id name status message now t =
      if status == str "up"
      then record t { incidents = update (is_open_for id) (resolve now) t.incidents }
      else if status == str "down"
      then if conflicts (some id) t
        then t
        else add_incident
            (new_incident (some id) (title_of name status (reason_of message)) (str "major") now t)
            t
      else if status == str "degraded"
      then if conflicts (some id) t
        then t
        else add_incident
            (new_incident (some id) (title_of name status (reason_of message)) (str "minor") now t)
            t
      else t

  unfoldable pub record_check : Monitor → GoString → Option ℤ → Option ℤ → Option GoString → Effect
  unfolding add_event mark_checked sync
  record_check m status latency code message now t =
      let t1 = add_event (canon m.id) status latency code message now t in
      let t2 = mark_checked (canon m.id) status latency now t1 in
      sync (canon m.id) m.name status message now t2

  canon_of : (s id : GoString) → u.cast s ≡ some id → canon s ≡ id
  canon_of s id e = ap (canon_or s) e

  row-Does :
      (s status : GoString) (latency code : Option ℤ) (message : Option GoString)
      → Does
          (add_event (canon s) status latency code message)
          (insert_check_event_row s status latency code message)
  unfolding insert_check_event_row add_event
  row-Does s status latency code message =
      let f = add_event (canon s) status latency code message in
      Does-with_uuid f s _ (λ id e. Does-with_optional_int4 f latency _ (
        Does-with_optional_int4 f code _ (
          Does-with_optional_text f message _ (record {
            at = λ now t.
                Holds-if (λ t'. t' ≡ f now t) (is_check_status status) _ _
                  (λ _.
                    Holds-if (λ t'. t' ≡ f now t) (monitor_known id t) _ _
                      (λ _. rw (canon_of s id e)) (λ _. tt))
                  (λ _. tt);
          }))))

  status-Does :
      (s status : GoString) (latency : Option ℤ)
      → Does (mark_checked (canon s) status latency) (update_monitor_status s status latency)
  unfolding update_monitor_status mark_checked
  status-Does s status latency =
      let f = mark_checked (canon s) status latency in
      Does-with_uuid f s _ (λ id e. Does-with_optional_int4 f latency _ (record {
        at = λ now t.
            Holds-if (λ t'. t' ≡ f now t) (monitor_known id t && not (is_monitor_status status)) _ _
              (λ _. tt) (λ _. rw (canon_of s id e));
      }))

  abbrev pub open_unless : GoString → GoString → GoString → Effect
  open_unless id title severity now t =
      if conflicts (some id) t
      then t
      else add_incident (new_incident (some id) title severity now t) t

  open-Does :
      (s title severity : GoString)
      → Does (open_unless (canon s) title severity) (insert_open_incident s title severity)
  unfolding insert_open_incident
  open-Does s title severity =
      let f = open_unless (canon s) title severity in
      Does-with_uuid f s _ (λ id e. Does-with_text f title _ (record {
        at = λ now t.
            Holds-if (λ t'. t' ≡ f now t) (is_severity severity) _ _
              (λ _.
                Holds-if (λ t'. t' ≡ f now t) (conflicts (some id) t) _ _
                  (λ c. rw (canon_of s id e) (rw c))
                  (λ c.
                    Holds-if (λ t'. t' ≡ f now t) (refers (some id) t) _ _
                      (λ _. rw (canon_of s id e) (rw c)) (λ _. tt)))
              (λ _. tt);
      }))

  resolve-Does :
      (s : GoString)
      → Does
          (λ now t. record t {
            incidents = update (is_open_for (canon s)) (resolve now) t.incidents;
          })
          (resolve_open_incidents s)
  unfolding resolve_open_incidents
  resolve-Does s = Does-with_uuid _ s _ (λ id e. record { at = λ now t. rw (canon_of s id e) })

  sync-TxDoes :
      (m : Monitor) (status : GoString) (message : Option GoString)
      → TxDoes (sync (canon m.id) m.name status message) (sync_incident_for_check m status message)
  unfolding sync_incident_for_check sync ◌==◌
  sync-TxDoes m status message = elim (Bool-cases (status == str "down")) [
    | inl down ↦ rw (eq_sound status (str "down") down) (TxDoes-exec _ _ (open-Does m.id _ _))
    | inr not_down ↦ elim (Bool-cases (status == str "degraded")) [
      | inl degraded ↦
          rw (eq_sound status (str "degraded") degraded) (TxDoes-exec _ _ (open-Does m.id _ _))
      | inr not_degraded ↦ elim (Bool-cases (status == str "up")) [
        | inl up ↦ rw (eq_sound status (str "up") up) (TxDoes-exec _ _ (resolve-Does m.id))
        | inr not_up ↦ simp (sync, not_down, not_degraded, not_up) (TxDoes-pure tt)
      ]
    ]
  ]

  pub tx-TxDoes :
      (m : Monitor) (status : GoString) (latency code : Option ℤ) (message : Option GoString)
      → TxDoes
          (record_check m status latency code message)
          (check_event_tx m status latency code message)
  unfolding check_event_tx record_check
  tx-TxDoes m status latency code message =
      TxDoes-bind _ _ _ _ (TxDoes-exec _ _ (row-Does m.id status latency code message)) (λ _.
        TxDoes-bind _ _ _ _ (TxDoes-exec _ _ (status-Does m.id status latency))
          (λ _. sync-TxDoes m status message))
