-- ===== src/Jobs/Running.antt =====
-- How perform of internal/jobs/jobs.go records the outcome of a job.
use go_fibe.Base.{◌≡◌, refl, arith, none, some, [], ◌∷◌}
use go_fibe.Base.Exec.{Result, ok, err}
use go_fibe.Strings.{GoString, str}
use go_fibe.Redis
use go_fibe.Db.Schema.{Uuid}
use go_fibe.Db.Engine.{Store}
use go_fibe.Db.Runs.{mark_job_running, mark_job_finished}
use go_fibe.App.{
  App, AppError, AppAction, db, map_err, on_store, on_redis, discard, attempt, error_of,
  publish_event,
}
use go_fibe.Jobs.{perform, performed, event_of}
use go_fibe.Jobs.Queueing.{publish_event_apart}

module _ ⦃u : Uuid⦄ (id : GoString) where
  -- What perform returns and leaves in the database, by what the body came to at a store.
  abbrev pub Recorded :
      Result AppError (Unit {0}) → Store → Result AppError (Unit {0}) × App → Type 0
  Recorded (ok x) s (r, b) =
      (r ≡ map_err db (mark_job_finished id (str "succeeded") none s).0)
      × (b.store ≡ (mark_job_finished id (str "succeeded") none s).1)
  Recorded (err e) s (r, b) =
      (r ≡ err e)
      × (b.store
          ≡ (mark_job_finished id (str "failed") (some (str "job failed; check server logs")) s).1)

  performed_lem :
      (r : Result AppError (Unit {0})) (a : App) → Recorded r a.store (performed id (error_of r) a)
  unfolding on_store on_redis discard
  performed_lem (ok x) a =
      let marked = (on_store (mark_job_finished id (str "succeeded") none) a).1 in
      let cleared = (discard (on_redis (Redis.del (str "cache:dashboard" ∷ []))) marked).1 in
      ground (arith, publish_event_apart (event_of (str "job") id (str "succeeded")) cleared)
  performed_lem (err e) a =
      let failure = some (str "job failed; check server logs") in
      let marked = (discard (on_store (mark_job_finished id (str "failed") failure)) a).1 in
      ground (arith, publish_event_apart (event_of (str "job") id (str "failed")) marked)

  -- The app in which the body runs.
  abbrev pub running : App → App
  running a =
      (publish_event (event_of (str "job") id (str "running"))
        (on_store (mark_job_running id) a).1).1

  running_store : (a : App) → (running a).store ≡ (mark_job_running id a.store).1
  unfolding on_store
  running_store a = ground (
    arith,
    publish_event_apart (event_of (str "job") id (str "running"))
        (on_store (mark_job_running id) a).1,
  )

  reached :
      (fn : AppAction (Unit {0})) (a : App)
      → (mark_job_running id a.store).0 ≡ ok tt
      → perform id fn a ≡ performed id (error_of (fn (running a)).0) (fn (running a)).1
  unfolding perform attempt on_store
  reached fn a h =
      rw
        (
          h,
          (publish_event_apart (event_of (str "job") id (str "running"))
              (on_store (mark_job_running id) a).1).0,
        )
        refl

  -- Once a run is marked as running, the body of its job runs after that mark, and its success or
  -- failure becomes the status of the run and the result of perform; the body's error is returned
  -- even if marking fails.
  pub perform_lem :
      (fn : AppAction (Unit {0})) (a : App)
      → (mark_job_running id a.store).0 ≡ ok tt
      → ((running a).store ≡ (mark_job_running id a.store).1)
        × Recorded (fn (running a)).0 (fn (running a)).1.store (perform id fn a)
  perform_lem fn a h =
      (running_store a, rw (reached fn a h) (performed_lem (fn (running a)).0 (fn (running a)).1))
