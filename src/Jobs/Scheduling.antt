-- ===== src/Jobs/Scheduling.antt =====
-- What a tick of scheduleDueMonitorChecks in internal/jobs/jobs.go queues.
use go_fibe.Base.{
  suc, ◌≡◌, ◌∙◌, ap, sym, refl, arith, Bool, true, false, ◌&&◌, List, [], ◌∷◌, ◌++◌, all, length,
}
use go_fibe.Base.Exec.{ok, bind_ok}
use go_fibe.Strings.{GoString, str, ◌==◌}
use go_fibe.Strings.Equality.{eq_refl}
use go_fibe.Models.{JobRun, Monitor}
use go_fibe.Db.Schema.{Uuid, Tables}
use go_fibe.Db.Engine.{Store, query}
use go_fibe.Db.Runs.{insert_job_run}
use go_fibe.Db.Monitors.{due, due_monitors}
use go_fibe.App.{App, Outside, Task, Queue, on_store, attempt, enqueue_task}
use go_fibe.Jobs.{
  Job, type_check_monitor, public_detail, event_of, task_of, queue_up, enqueue, enqueue_checks,
  enqueue_due_monitor_checks,
}
use go_fibe.Jobs.Queueing.{
  publish_event_apart, on_store_ok, on_store_apart, on_store_state, inserted, enqueue_ok,
}
use go_fibe.Jobs.Worker.{Signal, done, tick, meanwhile, schedule_loop}
use mathlib.Core.List.{append_assoc, append-nil}

abbrev pub check_of : Monitor → Job
check_of m = record { type = type_check_monitor; monitor_id = m.id }

-- The tasks for some monitors, under the identifiers of their rows.
abbrev pub check_tasks : Outside → List Monitor → List JobRun → List Task
check_tasks o [] rows = []
check_tasks o (m ∷ ms) [] = []
check_tasks o (m ∷ ms) (r ∷ rows) = task_of o (check_of m) r.id ∷ check_tasks o ms rows

abbrev pub is_queued_check : JobRun → Bool
is_queued_check r = r.status == str "queued" && r.job_type == type_check_monitor

module _ ⦃u : Uuid⦄ where
  queue_up_outside :
      (job : Job) (id0 id : GoString) (a : App)
      → (queue_up job id0 a).0 ≡ ok id
      → (queue_up job id0 a).1.outside ≡ a.outside
  unfolding attempt enqueue_task
  queue_up_outside job id0 id a h =
      let after = (attempt (enqueue_task (task_of a.outside job id0)) a).1 in
      ground (arith, publish_event_apart (event_of (str "job") id0 (str "queued")) after)

  enqueue_outside :
      (job : Job) (id : GoString) (a : App)
      → (enqueue job a).0 ≡ ok id
      → (enqueue job a).1.outside ≡ a.outside
  unfolding enqueue
  enqueue_outside job id a h =
      let insert = insert_job_run job.type (public_detail job.type) in
      let (id0, e, rest) = bind_ok (on_store insert) (queue_up job) a h in
      let mid = (on_store insert a).1 in
      ap (λ r. r.1.outside) rest
      ∙ queue_up_outside job id0 id mid (ap (λ r. r.0) (sym rest) ∙ h)
      ∙ (on_store_apart insert a).1

  -- One queued row, and one task that carries it, for each of the monitors.
  pub record Queued (ms : List Monitor) (a b : App) : Type 0 where
    pub rows : List JobRun
    pub in_rows : b.store.tables.job_runs ≡ a.store.tables.job_runs ++ rows
    pub in_queue : b.queue.tasks ≡ a.queue.tasks ++ check_tasks a.outside ms rows
    pub one_each : length rows ≡ length ms
    pub queued : all is_queued_check rows ≡ true

  enqueue_checks_ok :
      (ms : List Monitor) (a : App)
      → (enqueue_checks ms a).0 ≡ ok tt
      → Queued ms a (enqueue_checks ms a).1
  unfolding enqueue_checks
  enqueue_checks_ok [] a h = record {
    rows = [];
    in_rows = sym (append-nil _);
    in_queue = sym (append-nil _);
    one_each = refl;
    queued = refl;
  }
  enqueue_checks_ok (m ∷ ms) a h =
      let (id, e, rest) = bind_ok (enqueue (check_of m)) (λ _. enqueue_checks ms) a h in
      let mid = (enqueue (check_of m) a).1 in
      let (drawn, row, task) = enqueue_ok (check_of m) id a e in
      let q = enqueue_checks_ok ms mid (ap (λ r. r.0) (sym rest) ∙ h) in
      let r = inserted (check_of m) a in
      record {
        rows = r ∷ q.rows;
        in_rows =
            ap (λ x. x.1.store.tables.job_runs) rest
            ∙ q.in_rows
            ∙ ap (λ l. l ++ q.rows) row
            ∙ append_assoc a.store.tables.job_runs (r ∷ []) q.rows;
        in_queue =
            ap (λ x. x.1.queue.tasks) rest
            ∙ q.in_queue
            ∙ ap (λ o. mid.queue.tasks ++ check_tasks o ms q.rows)
                (enqueue_outside (check_of m) id a e)
            ∙ ap (λ l. l ++ check_tasks a.outside ms q.rows) task
            ∙ append_assoc a.queue.tasks (task_of a.outside (check_of m) id ∷ [])
                (check_tasks a.outside ms q.rows)
            ∙ ap
                (λ i.
                  a.queue.tasks
                  ++ task_of a.outside (check_of m) i ∷ check_tasks a.outside ms q.rows)
                (sym drawn);
        one_each = ap suc q.one_each;
        queued = ground (arith, q.queued, eq_refl (str "queued"), eq_refl type_check_monitor);
      }

  -- The monitors that are due when the rows are read.
  abbrev pub due_of : App → List Monitor
  due_of a = due (a.store.clock a.store.calls) 10 a.store.tables.monitors

  due_monitors_ok :
      (ms : List Monitor) (s : Store)
      → (due_monitors 10 s).0 ≡ ok ms
      → (ms ≡ due (s.clock s.calls) 10 s.tables.monitors)
        × ((due_monitors 10 s).1.tables ≡ s.tables)
  unfolding due_monitors query
  due_monitors_ok ms s h = ground arith

  enqueue_due_ok :
      (a : App)
      → (enqueue_due_monitor_checks a).0 ≡ ok tt
      → Queued (due_of a) a (enqueue_due_monitor_checks a).1
  unfolding enqueue_due_monitor_checks
  enqueue_due_ok a h =
      let (ms, e, rest) = bind_ok (on_store (due_monitors 10)) enqueue_checks a h in
      let (selected, same) = due_monitors_ok ms a.store (on_store_ok (due_monitors 10) a ms e) in
      let (tasks, outside, config) = on_store_apart (due_monitors 10) a in
      let mid = (on_store (due_monitors 10) a).1 in
      let q = enqueue_checks_ok ms mid (ap (λ r. r.0) (sym rest) ∙ h) in
      let rows_same =
        ap (λ (s : Store). s.tables.job_runs) (on_store_state (due_monitors 10) a)
        ∙ ap (λ (t : Tables). t.job_runs) same in
      record {
        rows = q.rows;
        in_rows =
            ap (λ x. x.1.store.tables.job_runs) rest ∙ q.in_rows ∙ ap (λ l. l ++ q.rows) rows_same;
        in_queue =
            ap (λ x. x.1.queue.tasks) rest
            ∙ q.in_queue
            ∙ ap (λ (x : Queue). x.tasks ++ check_tasks mid.outside ms q.rows) tasks
            ∙ ap (λ o. a.queue.tasks ++ check_tasks o ms q.rows) outside
            ∙ ap (λ l. a.queue.tasks ++ check_tasks a.outside l q.rows) selected;
        one_each = q.one_each ∙ ap length selected;
        queued = q.queued;
      }

  abbrev pub goes_on : Signal → Bool
  goes_on done = false
  goes_on tick = true
  goes_on (meanwhile f) = true

  loop-append :
      (before rest : List Signal) (a : App)
      → all goes_on before ≡ true
      → schedule_loop (before ++ rest) a ≡ schedule_loop rest (schedule_loop before a)
  unfolding schedule_loop
  loop-append [] rest a h = refl
  loop-append (done ∷ before) rest a h = cc
  loop-append (tick ∷ before) rest a h =
      loop-append before rest (enqueue_due_monitor_checks a).1 (ground arith)
  loop-append (meanwhile f ∷ before) rest a h = loop-append before rest (f a) (ground arith)

  -- Whatever earlier ticks of the scheduler came to and whatever happened between them, a tick
  -- before the context is done whose queueing returns without an error has added one queued row and
  -- one task that carries it for each monitor that DueMonitors selects, and no other task.
  pub tick_queues :
      (before : List Signal) (a : App)
      → all goes_on before ≡ true
      → (enqueue_due_monitor_checks (schedule_loop before a)).0 ≡ ok tt
      → Queued
          (due_of (schedule_loop before a))
          (schedule_loop before a)
          (schedule_loop (before ++ tick ∷ []) a)
  unfolding schedule_loop
  tick_queues before a h e =
      rw (loop-append before (tick ∷ []) a h) (enqueue_due_ok (schedule_loop before a) e)
