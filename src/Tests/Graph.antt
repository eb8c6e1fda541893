-- ===== src/Tests/Graph.antt =====
-- Runs of the GraphQL operations.
use go_fibe.Base.{◌≡◌, ◌≤◌, ◌↔◌, refl, pos, none, some, [], ◌∷◌, true, false, any}
use go_fibe.Base.Exec.{ok, err}
use go_fibe.Strings.{GoString, str, ◌==◌, len}
use go_fibe.Models
use go_fibe.Models.{Monitor, CurrentUser}
use go_fibe.Ability.{Context, background, with_user, not_authorized, authentication_required}
use go_fibe.Db.Monitors.{new_monitor, has_key}
use go_fibe.App.{App, on_store, ability}
use go_fibe.Graph
use go_fibe.Graph.{or_internal}
use go_fibe.Graph.Freshness.{dashboard_after_clearing}
use go_fibe.Jobs.{dashboard_keys}
use go_fibe.Redis
use go_fibe.Redis.{publishes}
use go_fibe.Tests.RedisServer.{serve-IsRedis}
use go_fibe.Db
use go_fibe.Graph.Input.{MonitorInput, validate_monitor_input, clean_required}
use go_fibe.Graph.Access.{delete_monitor, create_monitor, execute, execute_refused}
use go_fibe.Graph.Reading.{viewer_changes_nothing}
use go_fibe.Graph.Untouched.{Untouched}
use go_fibe.Graph.Validation.{Accepts, validate_monitor_input_iff, clean_required_bound}
use go_fibe.Graph.Creating.{create_monitor_ok, with_monitor}
use go_fibe.Tests.Fixtures.{plain_uuid}
use go_fibe.Tests.World.{app, config, net}

abbrev viewer : CurrentUser
viewer = record { id = 9 ∷ []; email = str "v@example.com"; name = str "V"; role = str "viewer" }

abbrev as_viewer : Context
as_viewer = record { user = some viewer }

abbrev admin_context : Context
admin_context = record { user = some (record viewer { role = str "admin" }) }

abbrev input : MonitorInput
input = record {
  name = str " New  site ";
  url = str " https://example.com ";
  method = some (str "head");
  expected_status = none;
  interval_seconds = none;
  enabled = none;
}

execute_refused_example :
    execute (delete_monitor (7 ∷ [])) as_viewer app ≡ (err (ability not_authorized), app)
unfolding go_fibe.Ability.require go_fibe.Ability.can ◌==◌
execute_refused_example =
    execute_refused (delete_monitor (7 ∷ [])) as_viewer app _ _ not_authorized refl refl

viewer_changes_nothing_example : Untouched app (execute (create_monitor input) as_viewer app).1
unfolding go_fibe.Ability.user_from_context
viewer_changes_nothing_example =
    viewer_changes_nothing (create_monitor input) as_viewer viewer app refl refl

abbrev accepted : Models.MonitorInput
accepted = record {
  name = str "New site";
  url = str "https://example.com";
  method = str "HEAD";
  expected_status = pos 200;
  interval_seconds = pos 60;
  enabled = true;
}

validate_monitor_input_iff_example :
    (validate_monitor_input net config input ≡ ok accepted) ↔ Accepts net config input accepted
validate_monitor_input_iff_example = validate_monitor_input_iff net config input accepted

validate_accepts : validate_monitor_input net config input ≡ ok accepted
unfolding validate_monitor_input go_fibe.Strings.is_empty clean_required len go_fibe.Strings.join
    go_fibe.Strings.fields go_fibe.Strings.trim_space go_fibe.Strings.is_space
    go_fibe.Security.normalize_monitor_url ◌==◌ go_fibe.Security.host_is_private_or_local
    go_fibe.Strings.equal_fold go_fibe.Strings.has_suffix go_fibe.Strings.to_lower
    go_fibe.Strings.to_upper
validate_accepts = refl

clean_required_bound_example : len (clean_required (str " New  site ") 5) ≤ 5
clean_required_bound_example = clean_required_bound (str " New  site ") 5

create_monitor_ok_example :
    (v : Models.MonitorInput) × Accepts app.outside.net app.config input v
    × (new_monitor accepted 0 app.store.tables
        ≡ new_monitor v (app.store.clock app.store.calls) app.store.tables)
    × (any (has_key v.name v.url) app.store.tables.monitors ≡ false)
    × ((Graph.create_monitor admin_context input app).1.store.tables
        ≡ with_monitor (new_monitor accepted 0 app.store.tables) app.store.tables)
unfolding Graph.create_monitor go_fibe.Ability.require go_fibe.Ability.can ◌==◌
    validate_monitor_input go_fibe.Strings.is_empty clean_required len go_fibe.Strings.join
    go_fibe.Strings.fields go_fibe.Strings.trim_space go_fibe.Strings.is_space
    go_fibe.Security.normalize_monitor_url go_fibe.Security.host_is_private_or_local
    go_fibe.Strings.equal_fold go_fibe.Strings.has_suffix go_fibe.Strings.to_lower
    go_fibe.Ability.user_from_context go_fibe.App.discard go_fibe.App.on_redis go_fibe.App.on_store
    go_fibe.App.publish_event go_fibe.Db.Engine.query go_fibe.Db.Monitors.create_monitor
    go_fibe.Db.Monitors.create_monitor_stmt go_fibe.Db.Monitors.insert_monitor Graph.or_internal
    go_fibe.Redis.del go_fibe.Redis.publish go_fibe.Redis.send
    go_fibe.Security.ip_is_private_or_local go_fibe.Strings.is_utf8 go_fibe.Strings.to_upper
    go_fibe.Strings.width
create_monitor_ok_example =
    create_monitor_ok admin_context input (new_monitor accepted 0 app.store.tables) app refl

-- The cache was cleared, and then an event was published.
abbrev cleared : App
cleared = record app {
  redis = Redis.execute (publishes (str "{}")) (Redis.del dashboard_keys app.redis).1;
}

dashboard_after_clearing_example :
    (Graph.dashboard as_viewer cleared).0
    ≡ (or_internal (on_store Db.Dashboard.dashboard) cleared).0
unfolding go_fibe.Ability.require go_fibe.Ability.can ◌==◌ Redis.del Redis.send
dashboard_after_clearing_example =
    dashboard_after_clearing as_viewer viewer app cleared
      (record { at = 1000; op = publishes (str "{}") } ∷ []) refl serve-IsRedis refl refl refl refl
