-- ===== src/Tests/System.antt =====
-- Runs of the whole system.
use go_fibe.Base.{refl, arith, true, none, some, List, [], ◌∷◌}
use go_fibe.Strings.{str}
use go_fibe.Event.{new_bus}
use go_fibe.Event.Invariant.{new_bus-IsSound}
use go_fibe.Db.Consistency.{IsConsistent}
use go_fibe.App.{Task}
use go_fibe.Graph.Access
use go_fibe.Server.Events.{gone, payload, quiet}
use go_fibe.Server.Routes.{Inputs, found, events, graphql}
use go_fibe.System.{System, Event, requests, wakes, forwards, handles, ticks, seeds, run}
use go_fibe.System.Health.{IsCoherent, Survives, run-Survives}
use go_fibe.Tests.Fixtures.{plain_uuid}
use go_fibe.Tests.World.{app, request, idle_site}

abbrev idle : System
idle = record { site = idle_site; worker_events = new_bus }

idle_tables-IsConsistent : IsConsistent app.store.tables
idle_tables-IsConsistent = record {
  one_open = λ id. omega arith;
  incidents_refer = refl;
  incidents_dated = refl;
  events_refer = refl;
  keys_unique = λ name url. ground arith;
  intervals = refl;
}

idle-IsCoherent : IsCoherent idle
unfolding new_bus
idle-IsCoherent = record {
  site = record {
    tables = idle_tables-IsConsistent;
    bus = new_bus-IsSound;
    subscribed = refl;
    running = refl;
  };
  worker_bus = new_bus-IsSound;
}

abbrev stream_inputs : Inputs
stream_inputs = record {
  match_route = λ routes r. found events;
  not_allowed = λ w. w;
  verify = λ password hash. some true;
  credentials = none;
  random = some (1 ∷ []);
  operations = [];
  answer = λ w. w;
  playground = λ w. w;
  flushes = true;
}

abbrev delete_inputs : Inputs
delete_inputs = record stream_inputs {
  match_route = λ routes r. found graphql;
  operations = Access.delete_monitor (7 ∷ []) ∷ [];
}

abbrev check_task : Task
check_task = record { type = str "check_monitor"; payload = 8 ∷ 0 ∷ 7 ∷ [] }

abbrev history : List Event
history =
    requests 0 stream_inputs request
    ∷ ticks
    ∷ handles none check_task
    ∷ forwards (str "job:8:queued")
    ∷ wakes 1 payload
    ∷ requests 1 delete_inputs request
    ∷ wakes 1 quiet
    ∷ wakes 1 gone
    ∷ seeds (str "$argon2id$")
    ∷ []

run-Survives_example : Survives (run history idle)
run-Survives_example = run-Survives history idle idle-IsCoherent
