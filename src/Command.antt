-- ===== src/Command.antt =====
-- cmd/go-fibe/main.go: the commands of the program.
pub mod Closing
pub mod Endings
use go_fibe.Base.{Bool, Option, none, some, List, [], ◌∷◌, if◌then◌else◌}
use go_fibe.Base.Exec.{Result, ok, err}
use go_fibe.Strings.{GoString, str, ◌==◌}
use go_fibe.Config.{Config, is_development}
use go_fibe.Config.Env.{ConfigError, Getenv, from_env}
use go_fibe.Migrate.{MigrateError, Target, migrate}
use go_fibe.Db.Schema.{Uuid, DbError}
use go_fibe.Db.Users.{seed}
use go_fibe.Db.Engine.{Store}
use go_fibe.App.{App}
use go_fibe.App.Startup.{
  Outcome, pending, panicked, returned, Ended, Holding, NewError, Start, Started, new, close,
}
use go_fibe.Jobs.Worker.{Signal, WorkerError, run_worker}
use go_fibe.Jobs.Worker
use go_fibe.Server.Serving.{ServeError, serve}
use go_fibe.Server.Serving
use go_fibe.System.{Event}

pub data CommandError : Type 0 where
  usage : CommandError
  bad_config : ConfigError → CommandError
  unknown_command : CommandError
  not_started : NewError → CommandError
  not_migrated : MigrateError → CommandError
  -- argon2id.CreateHash
  not_hashed : CommandError
  not_seeded : DbError → CommandError
  serve_failed : ServeError → CommandError
  worker_failed : WorkerError → CommandError

-- What a command meets, beside the environment: for the setup, the database behind the pool, the
-- files, and the hash of the demo password; for the others, what happens while they run.
module _ (D : Type 0) where
  pub record Surroundings : Type 0 where
    pub start : Start
    pub target : Target D
    pub run_sql : GoString → D → Result MigrateError D
    pub read_file : GoString → Option GoString
    pub files : Option (List GoString)
    pub hash : Option GoString
    pub serve_events : List Event
    pub serve_ending : Serving.Ending
    pub worker_signals : List Signal
    pub worker_ending : Worker.Ending

  -- How a command ends, with the database that it migrated.
  pub record Finished : Type 0 where
    pub ended : Ended CommandError
    pub target : Target D

abbrev seeded : Result DbError (Unit {0}) → Result CommandError (Unit {0})
seeded (ok x) = ok tt
seeded (err e) = err (not_seeded e)

abbrev of_serve : Result ServeError (Unit {0}) → Result CommandError (Unit {0})
of_serve (ok x) = ok tt
of_serve (err (Serving.not_started e)) = err (not_started e)
of_serve (err e) = err (serve_failed e)

abbrev of_worker : Result WorkerError (Unit {0}) → Result CommandError (Unit {0})
of_worker (ok x) = ok tt
of_worker (err (Worker.not_started e)) = err (not_started e)
of_worker (err e) = err (worker_failed e)

abbrev map_outcome :
    {E : Type 0}
    → (Result E (Unit {0}) → Result CommandError (Unit {0}))
    → Outcome E
    → Outcome CommandError
map_outcome f pending = pending
map_outcome f panicked = panicked
map_outcome f (returned r) = returned (f r)

abbrev map_ended :
    {E : Type 0}
    → (Result E (Unit {0}) → Result CommandError (Unit {0}))
    → Ended E
    → Ended CommandError
map_ended f e = record { outcome = map_outcome f e.outcome; holding = e.holding; app = e.app }

abbrev failed : CommandError → Holding → Ended CommandError
failed e h = record { outcome = returned (err e); holding = h; app = none }

pub data Level : Type 0 where
  debug info : Level

-- The level that configureLogging sets.
unfoldable pub log_level : Config → Level
log_level cfg = if is_development cfg then debug else info

module _ ⦃u : Uuid⦄ {D : Type 0} (x : Surroundings D) where
  abbrev kept : Ended CommandError → Finished D
  kept e = record { ended = e; target = x.target }

  -- Seed hashes the password first.
  abbrev seed_with : Option GoString → Store → Result CommandError (Unit {0}) × Store
  seed_with none s = (err not_hashed, s)
  seed_with (some hash) s = let (r, s') = seed hash s in (seeded r, s')

  abbrev closing : App → Holding → Result CommandError (Unit {0}) × Store → Ended CommandError
  closing a h (r, s) = record {
    outcome = returned r;
    holding = close h;
    app = some (record a { store = s });
  }

  abbrev migrated : App → Holding → Result MigrateError (Unit {0}) × Target D → Finished D
  migrated a h (err e, t) = record {
    ended = closing a h (err (not_migrated e), a.store);
    target = t;
  }
  migrated a h (ok y, t) = record { ended = closing a h (seed_with x.hash a.store); target = t }

  abbrev set_up : Started → Finished D
  set_up (none, h) = kept (record { outcome = pending; holding = h; app = none })
  set_up (some (err e), h) = kept (failed (not_started e) h)
  set_up (some (ok a), h) = migrated a h (migrate x.run_sql x.read_file x.files x.target)

  unfoldable pub setup : Config → Holding → Finished D
  setup cfg h = set_up (new cfg x.start h)

  abbrev dispatch : GoString → Config → Holding → Finished D
  dispatch name cfg h =
      if name == str "setup"
      then setup cfg h
      else if name == str "serve"
      then kept (map_ended of_serve (serve cfg x.start x.serve_events x.serve_ending h))
      else if name == str "worker"
      then kept (map_ended of_worker (run_worker cfg x.start x.worker_signals x.worker_ending h))
      else kept (failed unknown_command h)

  abbrev configured : GoString → Holding → Result ConfigError Config → Finished D
  configured name h (err e) = kept (failed (bad_config e) h)
  configured name h (ok cfg) = dispatch name cfg h

  -- `args` is os.Args.
  unfoldable pub run : List GoString → Getenv → Holding → Finished D
  unfolding setup
  run (program ∷ name ∷ rest) getenv h = configured name h (from_env getenv)
  run (program ∷ []) getenv h = kept (failed usage h)
  run [] getenv h = kept (failed usage h)
