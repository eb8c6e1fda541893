-- ===== src/App/Leaks.antt =====
-- What New of internal/app/app.go leaves open.
use go_fibe.Base.{
  Bool-cases, inl, inr, ◌≡◌, refl, arith, Bool, true, false, Option, none, some, List, [], ◌∷◌,
  if◌then◌else◌,
}
use go_fibe.Base.Exec.{Result, ok, err, Exec}
use go_fibe.Config.{Config}
use go_fibe.Config.Env.{RedisClientOpt, redis_asynq_opt}
use go_fibe.App.{App}
use go_fibe.App.Retry.{Wake, cancelled, expired, waited, Pending, retry, settled}
use go_fibe.App.Startup.{
  Holding, open_pool, open_client, open_queue, Dial, connect, pinged, ConnectError, no_pool,
  bad_database_url, pool_config, ping, NewError, store_failed, redis_failed, bad_redis_url,
  bad_asynq_url, Start, Started, with_queue, with_redis, with_store, new, close,
}

-- What a call that returns leaves: `opened` on success, and the rest as it was.
abbrev Leaves : {E A : Type 0} → Holding → Holding → Result E A × Holding → Type 0
Leaves opened h (ok a, h') = h' ≡ opened
Leaves opened h (err e, h') = h' ≡ h

abbrev LeavesAtEnd : {E A : Type 0} → Holding → Holding → Pending E A × Holding → Type 0
LeavesAtEnd opened h (none, h') = h' ≡ h
LeavesAtEnd opened h (some r, h') = Leaves opened h (r, h')

module _ {I E A : Type 0} (fn : I → Exec Holding E A) (opened : Holding) (h : Holding)
    (leaves : (i : I) → Leaves opened h (fn i h)) where
  settled-Leaves :
      (wake : Wake) (x : Result E A × Holding) (again : Holding → Pending E A × Holding)
      → Leaves opened h x
      → LeavesAtEnd opened h (again h)
      → LeavesAtEnd opened h (settled wake x again)
  settled-Leaves wake (ok a, h') again l k = l
  settled-Leaves cancelled (err e, h') again l k = l
  settled-Leaves expired (err e, h') again l k = l
  settled-Leaves waited (err e, h') again l k = rw l k

  retry-Leaves : (tries : List (I × Wake)) → LeavesAtEnd opened h (retry fn tries h)
  unfolding retry
  retry-Leaves [] = refl
  retry-Leaves ((i, wake) ∷ tries) =
      settled-Leaves wake (fn i h) (retry fn tries) (leaves i) (retry-Leaves tries)

connect-Leaves : (cfg : Config) (d : Dial) (h : Holding) → Leaves (open_pool h) h (connect cfg d h)
unfolding connect
connect-Leaves cfg d h =
    parsed (d.parses cfg.database_url) (d.makes_pool (pool_config cfg)) d.answers
  where
    parsed :
        (p m a : Bool)
        → Leaves (open_pool h) h (
            if p
            then (if m then pinged a (open_pool h) else (err no_pool, h))
            else (err bad_database_url, h))
    parsed false m a = refl
    parsed true false a = refl
    parsed true true true = refl
    parsed true true false = ground arith

ping-Leaves : (h : Holding) (b : Bool) → Leaves h h (ping b h)
unfolding ping
ping-Leaves h true = refl
ping-Leaves h false = refl

-- What is open after New: the Redis client also where Redis did not answer.
abbrev pub holding_after : Result NewError App → Holding → Holding
holding_after (ok a) h = open_queue (open_client (open_pool h))
holding_after (err (redis_failed e)) h = open_client h
holding_after (err (store_failed e)) h = h
holding_after (err bad_redis_url) h = h
holding_after (err bad_asynq_url) h = h

abbrev pub StartLeaves : Holding → Started → Type 0
StartLeaves h (none, h') = Unit {0}
StartLeaves h (some r, h') = h' ≡ holding_after r h

module _ (cfg : Config) (s : Start) (h : Holding) where
  with_queue-Leaves :
      (o : Option RedisClientOpt) → StartLeaves h (with_queue cfg s o (open_client (open_pool h)))
  with_queue-Leaves none = ground arith
  with_queue-Leaves (some opt) = refl

  with_redis-Leaves :
      (x : Pending (Unit {0}) (Unit {0}) × Holding)
      → LeavesAtEnd (open_client (open_pool h)) (open_client (open_pool h)) x
      → StartLeaves h (with_redis cfg s x)
  with_redis-Leaves (none, h') l = tt
  with_redis-Leaves (some (err e), h') l = rw l (ground arith)
  with_redis-Leaves (some (ok x), h') l =
      rw l (with_queue-Leaves (redis_asynq_opt s.outside.net cfg))

  with_store-Leaves :
      (x : Pending ConnectError (Unit {0}) × Holding)
      → LeavesAtEnd (open_pool h) h x
      → StartLeaves h (with_store cfg s x)
  with_store-Leaves (none, h') l = tt
  with_store-Leaves (some (err e), h') l = l
  with_store-Leaves (some (ok x), h') l = elim (Bool-cases (s.parses_redis cfg.redis_url)) [
    | inl e ↦
        rw (e, l)
          (with_redis-Leaves _ (
            retry-Leaves ping (open_client (open_pool h)) (open_client (open_pool h))
              (ping-Leaves _) s.pings))
    | inr e ↦ rw (e, l) (ground arith)
  ]

  pub new-Leaves : StartLeaves h (new cfg s h)
  unfolding new
  new-Leaves =
      with_store-Leaves _
        (retry-Leaves (connect cfg) (open_pool h) h (λ d. connect-Leaves cfg d h) s.dials)

pub close_all : (h : Holding) → close (open_queue (open_client (open_pool h))) ≡ h
unfolding close
close_all h = ground arith
