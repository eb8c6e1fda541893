-- ===== src/Jobs/Handling.antt =====
-- How a task that was queued by internal/jobs/jobs.go reaches its handler.
use go_fibe.Base.{◌≡◌, refl, true, false, Option, none, some, [], ◌∷◌, ◌++◌}
use go_fibe.Base.Exec.{ok, raise}
use go_fibe.Strings.{GoString, str, is_utf8, is_empty, ◌==◌}
use go_fibe.Cache
use go_fibe.Db.Schema.{Uuid}
use go_fibe.Db.CheckEvents.{prune_events}
use go_fibe.Db.Users.{seed}
use go_fibe.App.{App, AppAction, Task, message, on_store, on_redis}
use go_fibe.Jobs.{Job, task_of, handle_task, perform, enqueue, check_monitor}
use go_fibe.Jobs.Queueing.{enqueue_ok, inserted}

module _ ⦃u : Uuid⦄ where
  -- What each job is for.
  pub data Work (hash : Option GoString) : Job → AppAction (Unit {0}) → Type 0 where
    checks :
        (m : GoString)
        → is_empty m ≡ false
        → Work hash (record { type = str "check_monitor"; monitor_id = m }) (check_monitor m)
    lacks_monitor :
        Work hash
          (record { type = str "check_monitor"; monitor_id = [] })
          (raise (message (str "monitor id missing")))
    rebuilds :
        (m : GoString)
        → Work hash
            (record { type = str "rebuild_rollups"; monitor_id = m })
            (on_redis (Cache.delete (str "cache:dashboard" ∷ str "cache:public_status" ∷ [])))
    clears :
        (m : GoString)
        → Work hash
            (record { type = str "clear_cache"; monitor_id = m })
            (on_redis (Cache.delete (str "cache:dashboard" ∷ str "cache:public_status" ∷ [])))
    prunes :
        (m : GoString)
        → Work hash (record { type = str "prune_events"; monitor_id = m }) (on_store prune_events)
    reseeds :
        (m h : GoString)
        → hash ≡ some h
        → Work hash (record { type = str "reseed_demo"; monitor_id = m }) (on_store (seed h))
    reseed_fails :
        (m : GoString)
        → hash ≡ none
        → Work hash
            (record { type = str "reseed_demo"; monitor_id = m })
            (raise (message (str "argon2id")))

  -- The task's own work, where its payload is read back.
  handles_its_type :
      {hash : Option GoString} {job : Job} {work : AppAction (Unit {0})} (id : GoString) (b : App)
      → Work hash job work
      → b.outside.decode (task_of b.outside job id).payload
        ≡ some (record { job_run_id = id; monitor_id = job.monitor_id })
      → handle_task hash (task_of b.outside job id) b ≡ perform id work b
  unfolding handle_task ◌==◌ is_empty
  handles_its_type id b (checks m e) d = rw (d, e) refl
  handles_its_type id b lacks_monitor d = rw d refl
  handles_its_type id b (rebuilds m) d = rw d refl
  handles_its_type id b (clears m) d = rw d refl
  handles_its_type id b (prunes m) d = rw d refl
  handles_its_type id b (reseeds m h e) d = rw (d, e) refl
  handles_its_type id b (reseed_fails m e) d = rw (d, e) refl

  -- An Enqueue that returns an identifier has added a task to the queue which, if the identifiers
  -- are well-formed, is performed, in any state of the same surroundings, under the identifier of
  -- the row that Enqueue has inserted, and its work is that of its type: the check of the job's
  -- monitor, or an error where it names none; for rebuild_rollups and clear_cache the removal of
  -- both cached pages; the pruning of the check events; Seed with the hash of the demo password, or
  -- an error where hashing failed.
  pub handle_task-enqueue :
      (hash : Option GoString) (job : Job) (work : AppAction (Unit {0})) (id : GoString) (a b : App)
      → Work hash job work
      → (enqueue job a).0 ≡ ok id
      → is_utf8 id ≡ true
      → is_utf8 job.monitor_id ≡ true
      → b.outside ≡ a.outside
      → (task : Task) × ((enqueue job a).1.queue.tasks ≡ a.queue.tasks ++ task ∷ [])
        × ((inserted job a).id ≡ id)
        × (handle_task hash task b ≡ perform id work b)
  handle_task-enqueue hash job work id a b does queued valid valid_monitor same =
      let (drawn, rows, tasks) = enqueue_ok job id a queued in
      (
        task_of b.outside job id,
        rw same tasks,
        drawn,
        handles_its_type id b does (
            b.outside.decode-encode (record { job_run_id = id; monitor_id = job.monitor_id }) valid
              valid_monitor),
      )
