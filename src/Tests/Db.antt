-- ===== src/Tests/Db.antt =====
-- Runs of the store.
use go_fibe.Base.{◌≡◌, refl, none, some, [], ◌∷◌, arith, List, count, filter}
use go_fibe.Strings.{str, ◌==◌, is_utf8, is_empty}
use go_fibe.Db.Engine.{Store, exec, transaction, query}
use go_fibe.Db.Consistency.{IsConsistent}
use go_fibe.Db.Incidents.{is_open_for}
use go_fibe.Db.CheckEvents.{insert_check_event}
use go_fibe.Db.History.{
  Call, seeds, deletes_monitor, opens_incident, inserts_check_event, prunes_events, perform_all,
  perform_all-IsConsistent,
}
use go_fibe.Models.{Monitor}
use go_fibe.Db.Effects.{Atomic}
use go_fibe.Db.Monitors.{due, due_monitors}
use go_fibe.Db.Due.{IsSelection, due_monitors-IsSelection}
use go_fibe.Db.Checks.{incident_follows_check, insert_check_event-Atomic}
use go_fibe.Db.Recording.{record_check}
use go_fibe.Tests.Fixtures.{plain_uuid, no_tables, new_store, site, site_store}

no_tables-IsConsistent : IsConsistent no_tables
no_tables-IsConsistent = record {
  one_open = λ id. omega arith;
  incidents_refer = refl;
  incidents_dated = refl;
  events_refer = refl;
  keys_unique = λ name url. omega arith;
  intervals = refl;
}

site-IsConsistent : IsConsistent site_store.tables
site-IsConsistent = record {
  one_open = λ id. omega arith;
  incidents_refer = refl;
  incidents_dated = refl;
  events_refer = refl;
  keys_unique = λ name url. ground arith;
  intervals = refl;
}

abbrev calls : List Call
calls =
    seeds (str "$argon2id$")
    ∷ opens_incident
        (record { monitor_id = some (2 ∷ []); title = str "slow"; severity = str "minor" })
    ∷ inserts_check_event site (str "down") none none none
    ∷ deletes_monitor (2 ∷ [])
    ∷ prunes_events
    ∷ []

perform_all-IsConsistent_example : IsConsistent (perform_all calls new_store).tables
perform_all-IsConsistent_example = perform_all-IsConsistent calls new_store no_tables-IsConsistent

incident_follows_check_example :
    count
      (is_open_for (7 ∷ []))
      (insert_check_event site
        (str "down")
        none
        none
        (some (str "request failed"))
        (record site_store { calls = 4 })).1.tables.incidents
    ≡ 1
unfolding insert_check_event transaction exec ◌==◌ is_utf8 is_empty
incident_follows_check_example =
    incident_follows_check site (str "down") none none (some (str "request failed"))
      (record site_store { calls = 4 }) site-IsConsistent refl

insert_check_event-Atomic_example :
    let body = insert_check_event site (str "down") none none none in
    Atomic site_store.tables
      (record_check site
        (str "down")
        none
        none
        none
        (site_store.clock site_store.calls)
        site_store.tables)
      (body site_store).0
      (body site_store).1.tables
insert_check_event-Atomic_example =
    insert_check_event-Atomic site (str "down") none none none site_store

abbrev later_site : Monitor
later_site = record site { id = 8 ∷ []; name = str "Later"; last_checked_at = some 5 }

abbrev two_sites : Store
two_sites = record site_store {
  tables = record site_store.tables { monitors = later_site ∷ site ∷ [] };
  calls = 90;
}

due_monitors-IsSelection_example : IsSelection 90000000 1 two_sites.tables.monitors (site ∷ [])
unfolding due_monitors query due go_fibe.Base.sort_by
due_monitors-IsSelection_example = due_monitors-IsSelection 1 two_sites (site ∷ []) refl
