-- ===== src/Server/Serving.antt =====
-- Serve of internal/server/server.go.
use go_fibe.Base.{Bool, true, false, Option, none, some, List, []}
use go_fibe.Base.Exec.{Result, ok, err}
use go_fibe.Config.{Config}
use go_fibe.Event.{new_bus}
use go_fibe.Db.Schema.{Uuid}
use go_fibe.App.{App}
use go_fibe.App.Startup.{
  pending, panicked, returned, Ended, Holding, NewError, Start, Started, new, close,
}
use go_fibe.System.{System, Event, run}

pub data ServeError : Type 0 where
  not_started : NewError → ServeError
  listen_failed shutdown_failed : ServeError

pub data Ending : Type 0 where
  -- <-ctx.Done(), and then whether Shutdown succeeds within its ten seconds
  cancelled : Bool → Ending
  -- ListenAndServe returned http.ErrServerClosed, or another error.
  server_closed failed : Ending

abbrev pub answer_of : Ending → Result ServeError (Unit {0})
answer_of (cancelled true) = ok tt
answer_of (cancelled false) = err shutdown_failed
answer_of server_closed = ok tt
answer_of failed = err listen_failed

-- The system around a server that has just started.
abbrev pub started : App → System
started a = record { site = record { app = a; streams = [] }; worker_events = new_bus }

abbrev pub finished : Ending → Holding → Option System → Ended ServeError
finished ending h none = record { outcome = panicked; holding = h; app = none }
finished ending h (some x) = record {
  outcome = returned (answer_of ending);
  holding = close h;
  app = some x.site.app;
}

module _ ⦃u : Uuid⦄ where
  -- `events` is what happens while it serves.
  abbrev pub serving : List Event → Ending → Started → Ended ServeError
  serving events ending (none, h) = record { outcome = pending; holding = h; app = none }
  serving events ending (some (err e), h) = record {
    outcome = returned (err (not_started e));
    holding = h;
    app = none;
  }
  serving events ending (some (ok a), h) = finished ending h (run events (started a))

  unfoldable pub serve : Config → Start → List Event → Ending → Holding → Ended ServeError
  serve cfg s events ending h = serving events ending (new cfg s h)
