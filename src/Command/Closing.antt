-- ===== src/Command/Closing.antt =====
-- What the commands of cmd/go-fibe/main.go leave open.
use go_fibe.Base.{
  ◌≡◌, ◌∙◌, ap, refl, Bool, true, false, Option, none, some, List, [], ◌∷◌, if◌then◌else◌,
}
use go_fibe.Base.Exec.{Result, ok, err}
use go_fibe.Strings.{GoString, str, ◌==◌}
use go_fibe.Config.{Config}
use go_fibe.Config.Env.{ConfigError, Getenv, from_env}
use go_fibe.Db.Schema.{Uuid, DbError}
use go_fibe.Db.Engine.{Store}
use go_fibe.Db.Users.{seed}
use go_fibe.Migrate.{MigrateError, Target, migrate}
use go_fibe.App.{App}
use go_fibe.App.Startup.{Outcome, pending, panicked, returned, Ended, Holding, Started, new}
use go_fibe.App.Leaks.{StartLeaves, new-Leaves, close_all}
use go_fibe.Jobs.Worker.{Signal, WorkerError, run_worker, work, with_opt}
use go_fibe.Jobs.Worker
use go_fibe.Server.Serving.{ServeError, serve, serving}
use go_fibe.Server.Serving
use go_fibe.Command.{
  CommandError, not_started, Surroundings, Finished, of_serve, of_worker, map_ended, map_outcome,
  migrated, set_up, setup, seed_with, seeded, dispatch, configured, run,
}
use go_fibe.Command.Endings.{
  is_redis_failure, serve_leak, worker_leak, left_open, ClosesAt, Closes, opened, start_left,
  serving-Closes, work-Closes,
}

-- Redis did not answer the pings of New.
abbrev pub is_leak : Result CommandError (Unit {0}) → Bool
is_leak (err (not_started e)) = is_redis_failure e
is_leak _ = false

module _ {E : Type 0} (leak : Result E (Unit {0}) → Bool)
    (to : Result E (Unit {0}) → Result CommandError (Unit {0}))
    (same : (r : Result E (Unit {0})) → is_leak (to r) ≡ leak r) (h : Holding) where
  map-ClosesAt :
      (o : Outcome E) (h' : Holding)
      → ClosesAt leak h o h'
      → ClosesAt is_leak h (map_outcome to o) h'
  map-ClosesAt pending h' c = tt
  map-ClosesAt panicked h' c = tt
  map-ClosesAt (returned r) h' c = rw (same r) c

  map-Closes : (e : Ended E) → Closes leak h e → Closes is_leak h (map_ended to e)
  map-Closes e c = map-ClosesAt e.outcome e.holding c

serve_same : (r : Result ServeError (Unit {0})) → is_leak (of_serve r) ≡ serve_leak r
serve_same (ok x) = refl
serve_same (err (Serving.not_started e)) = refl
serve_same (err Serving.listen_failed) = refl
serve_same (err Serving.shutdown_failed) = refl

worker_same : (r : Result WorkerError (Unit {0})) → is_leak (of_worker r) ≡ worker_leak r
worker_same (ok x) = refl
worker_same (err (Worker.not_started e)) = refl
worker_same (err Worker.bad_asynq) = refl
worker_same (err Worker.server_failed) = refl

seeded_leak : (r : Result DbError (Unit {0})) → is_leak (seeded r) ≡ false
seeded_leak (ok x) = refl
seeded_leak (err e) = refl

if-Closes :
    {D : Type 0} (h : Holding) (b : Bool) (x y : Finished D)
    → Closes is_leak h x.ended
    → Closes is_leak h y.ended
    → Closes is_leak h (if b then x else y).ended
if-Closes h true x y p q = p
if-Closes h false x y p q = q

returned_leaves :
    (h : Holding) (o : Outcome CommandError) (h' : Holding) (r : Result CommandError (Unit {0}))
    → ClosesAt is_leak h o h'
    → o ≡ returned r
    → h' ≡ left_open (is_leak r) h
returned_leaves h (returned r') h' r c e = c ∙ ap (λ o. left_open (leak_of o) h) e
  where
    leak_of : Outcome CommandError → Bool
    leak_of (returned r) = is_leak r
    leak_of pending = false
    leak_of panicked = false
returned_leaves h pending h' r c e = cc
returned_leaves h panicked h' r c e = cc

module _ ⦃u : Uuid⦄ {D : Type 0} (x : Surroundings D) (h : Holding) where
  seed_leak : (o : Option GoString) (s : Store) → is_leak (seed_with x o s).0 ≡ false
  seed_leak none s = refl
  seed_leak (some hash) s = seeded_leak (seed hash s).0

  migrated-Closes :
      (a : App) (m : Result MigrateError (Unit {0}) × Target D)
      → Closes is_leak h (migrated x a (opened h) m).ended
  migrated-Closes a (err e, t) = close_all h
  migrated-Closes a (ok y, t) = rw (seed_leak x.hash a.store) (close_all h)

  set_up-Closes : (y : Started) → StartLeaves h y → Closes is_leak h (set_up x y).ended
  set_up-Closes (none, h') l = tt
  set_up-Closes (some (err e), h') l = start_left h h' e l
  set_up-Closes (some (ok a), h') l =
      rw l (migrated-Closes a (migrate x.run_sql x.read_file x.files x.target))

  dispatch-Closes :
      (name : GoString) (cfg : Config) → Closes is_leak h (dispatch x name cfg h).ended
  unfolding setup serve run_worker
  dispatch-Closes name cfg =
      let start = new-Leaves cfg x.start h in
      if-Closes h (name == str "setup") _ _ (set_up-Closes (new cfg x.start h) start) (
        if-Closes h (name == str "serve") _ _
          (map-Closes serve_leak of_serve serve_same h
            (serve cfg x.start x.serve_events x.serve_ending h)
            (serving-Closes h x.serve_events x.serve_ending (new cfg x.start h) start))
          (if-Closes h (name == str "worker") _ _
            (map-Closes worker_leak of_worker worker_same h
              (run_worker cfg x.start x.worker_signals x.worker_ending h)
              (work-Closes h x.worker_signals x.worker_ending (new cfg x.start h) start))
            refl))

  configured-Closes :
      (name : GoString) (r : Result ConfigError Config)
      → Closes is_leak h (configured x name h r).ended
  configured-Closes name (err e) = refl
  configured-Closes name (ok cfg) = dispatch-Closes name cfg

  run-Closes :
      (args : List GoString) (getenv : Getenv) → Closes is_leak h (run x args getenv h).ended
  unfolding run
  run-Closes [] getenv = refl
  run-Closes (program ∷ []) getenv = refl
  run-Closes (program ∷ name ∷ rest) getenv = configured-Closes name (from_env getenv)

  -- A command that has returned, with or without an error, holds no more pools, Redis clients or
  -- queue clients open than before it started, except that one Redis client stays open where New
  -- failed because Redis did not answer its pings.
  pub run_closes :
      (args : List GoString) (getenv : Getenv) (r : Result CommandError (Unit {0}))
      → (run x args getenv h).ended.outcome ≡ returned r
      → (run x args getenv h).ended.holding ≡ left_open (is_leak r) h
  run_closes args getenv r e = returned_leaves h _ _ r (run-Closes args getenv) e
