-- ===== src/System.antt =====
-- The processes of cmd/go-fibe together: a server and a worker over one PostgreSQL and one Redis.
pub mod Health
pub mod Streams
use go_fibe.Base.{
  ℕ, Bool, Option, none, some, List, [], ◌∷◌, not, eqb, map, filter, find, if◌then◌else◌,
}
use go_fibe.Strings.{GoString}
use go_fibe.Http.{Request, Writer, new_writer}
use go_fibe.Event.{Bus, publish}
use go_fibe.Db.Schema.{Uuid}
use go_fibe.Db.Users.{seed}
use go_fibe.App.{App, Task}
use go_fibe.Jobs.{handle_task, enqueue_due_monitor_checks}
use go_fibe.Server.{Site, pipeline}
use go_fibe.Server.Events.{Stream, Wakeup, stream_turn}
use go_fibe.Server.Routes.{Inputs, router}

-- The worker has a local bus of its own.
pub record System : Type 0 where
  pub site : Site
  pub worker_events : Bus

-- What happens next: each runs to its end before the next one starts.
pub data Event : Type 0 where
  -- A request reaches the server at a Unix time.
  requests : ℕ → Inputs → Request → Event
  -- The loop of the event stream with this number takes a turn.
  wakes : ℕ → Wakeup → Event
  -- ForwardRedis gets a message.
  forwards : GoString → Event
  -- The worker takes a task, given the hash of the demo password.
  handles : Option GoString → Task → Event
  -- The ticker of the worker ticks.
  ticks : Event
  -- The setup seeds the database.
  seeds : GoString → Event

abbrev pub is_stream : ℕ → Stream → Bool
is_stream id t = eqb t.id id

abbrev pub replace : ℕ → Stream → List Stream → List Stream
replace id t [] = []
replace id t (s ∷ ts) = let rest = replace id t ts in if is_stream id s then t ∷ ts else s ∷ rest

abbrev pub remove : ℕ → List Stream → List Stream
remove id ts = filter (λ s. not (is_stream id s)) ts

abbrev pub with_events : Bus → App → App
with_events b a = record a { events = b }

abbrev pub turned : ℕ → Site → Option (Bus × Option Stream) → Option Site
turned id s none = none
turned id s (some (b, none)) =
    some (record { app = with_events b s.app; streams = remove id s.streams })
turned id s (some (b, some t)) =
    some (record { app = with_events b s.app; streams = replace id t s.streams })

abbrev pub woken : ℕ → Wakeup → Site → Option Stream → Option Site
woken id k s none = some s
woken id k s (some t) = turned id s (stream_turn k t s.app.events)

abbrev pub forwarded : Site → Option Bus → Option Site
forwarded s none = none
forwarded s (some b) = some (record s { app = with_events b s.app })

abbrev pub with_site : System → Option Site → Option System
with_site x none = none
with_site x (some s) = some (record x { site = s })

-- What the worker does goes to the shared rows, Redis and queue, and to its own bus.
abbrev pub as_worker : System → App
as_worker x = with_events x.worker_events x.site.app

abbrev pub by_worker : System → App → System
by_worker x a = record {
  site = record x.site { app = with_events x.site.app.events a };
  worker_events = a.events;
}

-- Nothing is said of what comes behind a panic.
abbrev pub unless_panicked : System → Option System
unless_panicked x = if x.site.app.panicked then none else some x

module _ ⦃u : Uuid⦄ where
  -- `none` is a panic.
  unfoldable pub step : Event → System → Option System
  step (requests unix inputs r) x =
      unless_panicked (record x { site = (pipeline unix (router inputs) r new_writer x.site).1 })
  step (wakes id k) x = with_site x (woken id k x.site (find (is_stream id) x.site.streams))
  step (forwards payload) x = with_site x (forwarded x.site (publish payload x.site.app.events))
  step (handles hash t) x = unless_panicked (by_worker x (handle_task hash t (as_worker x)).1)
  step ticks x = unless_panicked (by_worker x (enqueue_due_monitor_checks (as_worker x)).1)
  step (seeds hash) x =
      let a = as_worker x in
      unless_panicked (by_worker x (record a { store = (seed hash a.store).1 }))

  abbrev then_run : Option System → (System → Option System) → Option System
  then_run none k = none
  then_run (some x) k = k x

  unfoldable pub run : List Event → System → Option System
  unfolding step
  run [] x = some x
  run (e ∷ es) x = let rest = run es in then_run (step e x) rest
