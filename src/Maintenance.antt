-- ===== src/Maintenance.antt =====
-- internal/maintenance/tasks.go: the tasks that an operator of the site may have run.
use go_fibe.Base.{true, false, Bool, List, [], ◌∷◌, any}
use go_fibe.Strings.{GoString, str, ◌==◌}
use go_fibe.Models.{MaintenanceTask}

abbrev pub tasks : List MaintenanceTask
tasks =
    record {
      name = str "rebuild_rollups";
      description =
          str "Clear dashboard rollups and force the next request to rebuild cached summaries.";
      dangerous = false;
    }
    ∷ record {
      name = str "clear_cache";
      description = str "Remove Redis-backed application caches.";
      dangerous = false;
    }
    ∷ record {
      name = str "prune_events";
      description = str "Delete check events older than 14 days.";
      dangerous = true;
    }
    ∷ record {
      name = str "reseed_demo";
      description = str "Ensure demo users and monitors exist.";
      dangerous = false;
    }
    ∷ []

unfoldable pub exists : GoString → Bool
exists name = any (λ (task : MaintenanceTask). task.name == name) tasks
