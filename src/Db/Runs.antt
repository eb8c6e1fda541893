-- ===== src/Db/Runs.antt =====
-- The job runs and maintenance runs of internal/db/store.go.
use go_fibe.Base.{
  suc, Bool, not, ◌&&◌, Option, none, some, List, [], ◌∷◌, ◌++◌, ltb, any, find, update, take,
  sort_by, if◌then◌else◌,
}
use go_fibe.Base.Exec.{Result, ok, err}
use go_fibe.Strings.{GoString, str, ◌==◌}
use go_fibe.Models.{JobRun, MaintenanceRun, Time}
use go_fibe.Db.Schema.{
  Tables, Uuid, Statement, DbError, no_rows, check_violation, with_uuid, with_text, is_job_status,
  is_maintenance_status,
}
use go_fibe.Db.Engine.{Action, query}

abbrev newer_job : JobRun → JobRun → Bool
newer_job i j = ltb j.created_at i.created_at

unfoldable pub recent_job_runs : Action (List JobRun)
recent_job_runs = query λ now t. ok (take 20 (sort_by newer_job t.job_runs), t)

abbrev later_run : MaintenanceRun → MaintenanceRun → Bool
later_run i j = ltb j.started_at i.started_at

unfoldable pub recent_maintenance_runs : Action (List MaintenanceRun)
recent_maintenance_runs = query λ now t. ok (take 20 (sort_by later_run t.maintenance_runs), t)

abbrev pub job_is : GoString → JobRun → Bool
job_is id j = j.id == id

abbrev pub run_is : GoString → MaintenanceRun → Bool
run_is id r = r.id == id

-- SET status = 'running', started_at = now()
abbrev pub start_job : Time → JobRun → JobRun
start_job now j = record j { status = str "running"; started_at = some now }

-- COALESCE($3, detail)
abbrev pub coalesce : Option GoString → Option GoString → Option GoString
coalesce none b = b
coalesce (some a) b = some a

-- SET status = $2, detail = COALESCE($3, detail), finished_at = now()
abbrev pub finish_job : GoString → Option GoString → Time → JobRun → JobRun
finish_job status detail now j = record j {
  status = status;
  detail = coalesce detail j.detail;
  finished_at = some now;
}

abbrev pub complete_run : GoString → Option GoString → Time → MaintenanceRun → MaintenanceRun
complete_run status output now r = record r {
  status = status;
  output = output;
  finished_at = some now;
}

module _ ⦃u : Uuid⦄ where
  abbrev pub new_job_run : GoString → GoString → Time → Tables → JobRun
  new_job_run job_type detail now t = record {
    id = u.gen_random t.draws;
    job_type = job_type;
    status = str "queued";
    detail = some detail;
    created_at = now;
    started_at = none;
    finished_at = none;
  }

  unfoldable pub insert_job_run_stmt : GoString → GoString → Statement GoString
  insert_job_run_stmt job_type detail = with_text job_type (
      with_text detail λ now t.
        let j = new_job_run job_type detail now t in
        ok (j.id, record t { job_runs = t.job_runs ++ j ∷ []; draws = suc t.draws }))

  unfoldable pub insert_job_run : GoString → GoString → Action GoString
  insert_job_run job_type detail = query (insert_job_run_stmt job_type detail)

  unfoldable pub mark_job_running_stmt : GoString → Statement (Unit {0})
  mark_job_running_stmt s =
      with_uuid s
        λ id now t. ok (tt, record t { job_runs = update (job_is id) (start_job now) t.job_runs })

  unfoldable pub mark_job_running : GoString → Action (Unit {0})
  mark_job_running id = query (mark_job_running_stmt id)

  abbrev pub with_detail : {A : Type 0} → Option GoString → Statement A → Statement A
  with_detail none body = body
  with_detail (some s) body = with_text s body

  unfoldable pub mark_job_finished_stmt :
      GoString → GoString → Option GoString → Statement (Unit {0})
  mark_job_finished_stmt s status detail = with_uuid s λ id. with_detail detail λ now t.
      if any (job_is id) t.job_runs && not (is_job_status status)
      then err check_violation
      else ok
          (tt, record t { job_runs = update (job_is id) (finish_job status detail now) t.job_runs })

  unfoldable pub mark_job_finished : GoString → GoString → Option GoString → Action (Unit {0})
  mark_job_finished id status detail = query (mark_job_finished_stmt id status detail)

  abbrev new_maintenance_run : GoString → Time → Tables → MaintenanceRun
  new_maintenance_run name now t = record {
    id = u.gen_random t.draws;
    task_name = name;
    status = str "running";
    output = none;
    started_at = now;
    finished_at = none;
  }

  unfoldable pub insert_maintenance_run_stmt : GoString → Statement MaintenanceRun
  insert_maintenance_run_stmt name = with_text name λ now t.
      let r = new_maintenance_run name now t in
      ok (r, record t { maintenance_runs = t.maintenance_runs ++ r ∷ []; draws = suc t.draws })

  unfoldable pub insert_maintenance_run : GoString → Action MaintenanceRun
  insert_maintenance_run name = query (insert_maintenance_run_stmt name)

  abbrev pub returning : Option MaintenanceRun → Tables → Result DbError (MaintenanceRun × Tables)
  returning none t = err no_rows
  returning (some r) t = ok (r, t)

  unfoldable pub complete_maintenance_run_stmt :
      GoString → GoString → Option GoString → Statement MaintenanceRun
  complete_maintenance_run_stmt s status output = with_uuid s λ id. with_detail output λ now t.
      let runs = update (run_is id) (complete_run status output now) t.maintenance_runs in
      if any (run_is id) t.maintenance_runs && not (is_maintenance_status status)
      then err check_violation
      else returning (find (run_is id) runs) (record t { maintenance_runs = runs })

  unfoldable pub complete_maintenance_run :
      GoString → GoString → Option GoString → Action MaintenanceRun
  complete_maintenance_run id status output = query (complete_maintenance_run_stmt id status output)
