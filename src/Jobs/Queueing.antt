-- ===== src/Jobs/Queueing.antt =====
-- What Enqueue of internal/jobs/jobs.go leaves in the database and in the queue.
use go_fibe.Base.{◌≡◌, ◌∙◌, ap, sym, refl, [], ◌∷◌, ◌++◌, arith}
use go_fibe.Base.Exec.{ok, bind_ok}
use go_fibe.Strings.{GoString, str}
use go_fibe.Models.{JobRun}
use go_fibe.Db.Schema.{Uuid}
use go_fibe.Db.Engine.{Store, query, Action}
use go_fibe.Db.Runs.{new_job_run, insert_job_run, insert_job_run_stmt}
use go_fibe.App.{App, on_store, attempt, enqueue_task, publish_event}
use go_fibe.Jobs.{Job, public_detail, event_of, task_of, queue_up, enqueue}

-- PublishEvent never fails and leaves the database, the queue and the configuration alone.
pub publish_event_apart :
    (value : GoString) (a : App)
    → ((publish_event value a).0 ≡ ok tt)
      × ((publish_event value a).1.store ≡ a.store)
      × ((publish_event value a).1.queue ≡ a.queue)
      × ((publish_event value a).1.outside ≡ a.outside)
      × ((publish_event value a).1.config ≡ a.config)
unfolding publish_event
publish_event_apart value a = ground arith

module _ {A : Type 0} (m : Action A) (a : App) where
  pub on_store_ok : (r : A) → (on_store m a).0 ≡ ok r → (m a.store).0 ≡ ok r
  unfolding on_store
  on_store_ok r h = ground arith

  pub on_store_state : (on_store m a).1.store ≡ (m a.store).1
  unfolding on_store
  on_store_state = refl

  pub on_store_apart :
      ((on_store m a).1.queue ≡ a.queue)
      × ((on_store m a).1.outside ≡ a.outside)
      × ((on_store m a).1.config ≡ a.config)
  unfolding on_store
  on_store_apart = (refl, refl, refl)

module _ ⦃u : Uuid⦄ where
  insert_job_run_ok :
      (type detail id : GoString) (s : Store)
      → (insert_job_run type detail s).0 ≡ ok id
      → ((insert_job_run type detail s).1.tables.job_runs
          ≡ s.tables.job_runs ++ new_job_run type detail (s.clock s.calls) s.tables ∷ [])
        × (id ≡ u.gen_random s.tables.draws)
  unfolding insert_job_run insert_job_run_stmt query
  insert_job_run_ok type detail id s h = ground arith

  queue_up_ok :
      (job : Job) (id0 id : GoString) (a : App)
      → (queue_up job id0 a).0 ≡ ok id
      → ((queue_up job id0 a).1.store ≡ a.store)
        × ((queue_up job id0 a).1.queue.tasks ≡ a.queue.tasks ++ task_of a.outside job id0 ∷ [])
        × (id0 ≡ id)
  unfolding attempt enqueue_task
  queue_up_ok job id0 id a h =
      let after = (attempt (enqueue_task (task_of a.outside job id0)) a).1 in
      ground (arith, publish_event_apart (event_of (str "job") id0 (str "queued")) after)

  abbrev pub inserted : Job → App → JobRun
  inserted job a =
      new_job_run job.type (public_detail job.type) (a.store.clock a.store.calls) a.store.tables

  -- An Enqueue that returns an identifier has added one queued row under it, and one task that
  -- carries it.
  pub enqueue_ok :
      (job : Job) (id : GoString) (a : App)
      → (enqueue job a).0 ≡ ok id
      → ((inserted job a).id ≡ id)
        × ((enqueue job a).1.store.tables.job_runs ≡ a.store.tables.job_runs ++ inserted job a ∷ [])
        × ((enqueue job a).1.queue.tasks ≡ a.queue.tasks ++ task_of a.outside job id ∷ [])
  unfolding enqueue on_store
  enqueue_ok job id a h =
      let insert = insert_job_run job.type (public_detail job.type) in
      let (id0, e, rest) = bind_ok (on_store insert) (queue_up job) a h in
      let mid = (on_store insert a).1 in
      let (same_store, tasks, same) = queue_up_ok job id0 id mid (ap (λ r. r.0) (sym rest) ∙ h) in
      let (rows, drawn) =
        insert_job_run_ok job.type (public_detail job.type) id0 a.store
          (on_store_ok insert a id0 e) in
      (
        sym drawn ∙ same,
        ap (λ r. r.1.store.tables.job_runs) rest
            ∙ ap (λ (s : Store). s.tables.job_runs) same_store
            ∙ ap (λ (s : Store). s.tables.job_runs) (on_store_state insert a)
            ∙ rows,
        ap (λ r. r.1.queue.tasks) rest
            ∙ tasks
            ∙ ap (λ i. mid.queue.tasks ++ task_of a.outside job i ∷ []) same
            ∙ refl,
      )
