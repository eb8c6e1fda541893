-- ===== src/Jobs/Observing.antt =====
-- What CheckMonitor of internal/jobs/jobs.go finds out about a monitor.
use go_fibe.Base.{ℤ, pos, eqb_ℤ, Option, none, some, ◌++◌, if◌then◌else◌}
use go_fibe.Base.Exec.{Result, ok, err}
use go_fibe.Strings.{GoString, str}
use go_fibe.Strings.Itoa.{itoa_ℤ}
use go_fibe.Models.{Monitor}
use go_fibe.Config.{Config}
use go_fibe.Security.{UrlError, ensure_monitor_url_allowed}
use go_fibe.App.{Fetch, failed, responded, Outside}

-- The arguments of recordCheckResult.
pub record Observation : Type 0 where
  pub status : GoString
  pub latency : Option ℤ
  pub code : Option ℤ
  pub detail : GoString

abbrev pub observed : Monitor → Fetch → Observation
observed m (failed latency) = record {
  status = str "down";
  latency = some (pos latency);
  code = none;
  detail = str "request failed";
}
observed m (responded latency code) =
    if eqb_ℤ code m.expected_status
    then record {
      status = str "up";
      latency = some (pos latency);
      code = some code;
      detail = str "expected HTTP " ++ itoa_ℤ code;
    }
    else record {
      status = str "down";
      latency = some (pos latency);
      code = some code;
      detail = str "expected " ++ (itoa_ℤ m.expected_status ++ (str ", got " ++ itoa_ℤ code));
    }

abbrev pub allowed_or : Outside → Monitor → Result UrlError (Unit {0}) → Observation
allowed_or o m (err e) = record {
  status = str "down";
  latency = none;
  code = none;
  detail = str "request blocked by URL safety policy";
}
allowed_or o m (ok _) =
    if o.accepts_request m.method m.url then observed m (o.fetch m.method m.url) else record {
      status = str "down";
      latency = none;
      code = none;
      detail = str "invalid monitor request";
    }

-- What CheckMonitor finds out about a monitor.
unfoldable pub observe : Config → Outside → Monitor → Observation
observe cfg o m = allowed_or o m (ensure_monitor_url_allowed o.net cfg m.url)
