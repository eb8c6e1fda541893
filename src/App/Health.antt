-- ===== src/App/Health.antt =====
-- Actions of internal/app/app.go's runtime that keep the tables consistent and the local bus sound.
use go_fibe.Base.{◌≡◌, Bool, true, false, List, ◌∙◌, if◌then◌else◌}
use go_fibe.Base.Exec.{Result, ok, err, pure, raise, continue, ◌>>=◌, ◌>>◌}
use go_fibe.Strings.{GoString}
use go_fibe.Db.Schema.{Statement}
use go_fibe.Db.Engine.{Store, Action, query}
use go_fibe.Db.Keeps.{Keeps, query_keeps}
use go_fibe.Db.Consistency.{IsConsistent}
use go_fibe.Event.{Subscriber}
use go_fibe.Event.Invariant.{IsSound}
use go_fibe.Event.Delivery.{publish_lem}
use go_fibe.Redis
use go_fibe.Redis.{Redis, RedisError, Command}
use go_fibe.App.{
  App, AppError, AppAction, Task, on_store, on_redis, discard, attempt, notify, publish_event,
  enqueue_task,
}

-- The subscriptions of the bus are the given ones.
pub record IsHealthy (subscriptions : List Subscriber) (a : App) : Type 0 where
  pub tables : IsConsistent a.store.tables
  pub bus : IsSound a.events
  pub subscribed : a.events.subscribers ≡ subscriptions
  pub running : a.panicked ≡ false

-- An action that leaves a healthy runtime healthy, whether it fails or not, and that subscribes
-- nobody and cancels no subscription.
pub record IsSafe {A : Type 0} (m : AppAction A) : Type 0 where
  pub at : (ss : List Subscriber) (a : App) → IsHealthy ss a → IsHealthy ss (m a).1

module _ {A : Type 0} where
  pub pure-IsSafe : (x : A) → IsSafe (pure x)
  pure-IsSafe x = record { at = λ ss a h. h }

  pub raise-IsSafe : (e : AppError) → IsSafe {A = A} (raise e)
  raise-IsSafe e = record { at = λ ss a h. h }

  pub if-IsSafe : (b : Bool) (m n : AppAction A) → IsSafe m → IsSafe n → IsSafe (if b then m else n)
  if-IsSafe true m n p q = p
  if-IsSafe false m n p q = q

  pub on_store-IsSafe :
      (m : Action A)
      → ((s : Store) → IsConsistent s.tables → IsConsistent (m s).1.tables)
      → IsSafe (on_store m)
  unfolding on_store
  on_store-IsSafe m k = record {
    at = λ ss a h. record {
      tables = k a.store h.tables;
      bus = h.bus;
      subscribed = h.subscribed;
      running = h.running;
    };
  }

  pub query-IsSafe : (stmt : Statement A) → Keeps IsConsistent stmt → IsSafe (on_store (query stmt))
  query-IsSafe stmt k = on_store-IsSafe (query stmt) (query_keeps IsConsistent stmt k)

  pub on_redis-IsSafe : (m : Command A) → IsSafe (on_redis m)
  unfolding on_redis
  on_redis-IsSafe m = record {
    at = λ ss a h. record {
      tables = h.tables;
      bus = h.bus;
      subscribed = h.subscribed;
      running = h.running;
    };
  }

  pub discard-IsSafe : (m : AppAction A) → IsSafe m → IsSafe (discard m)
  unfolding discard
  discard-IsSafe m p = record { at = p.at }

  pub attempt-IsSafe : (m : AppAction A) → IsSafe m → IsSafe (attempt m)
  unfolding attempt
  attempt-IsSafe m p = record { at = p.at }

module _ {A B : Type 0} where
  continue-IsHealthy :
      (r : Result AppError A) (f : A → AppAction B) (ss : List Subscriber) (a : App)
      → ((x : A) → IsSafe (f x))
      → IsHealthy ss a
      → IsHealthy ss (continue r f a).1
  continue-IsHealthy (ok x) f ss a k h = (k x).at ss a h
  continue-IsHealthy (err e) f ss a k h = h

  pub bind-IsSafe :
      (m : AppAction A) (f : A → AppAction B)
      → IsSafe m
      → ((x : A) → IsSafe (f x))
      → IsSafe (m >>= f)
  bind-IsSafe m f p k = record {
    at = λ ss a h. continue-IsHealthy (m a).0 f ss (m a).1 k (p.at ss a h);
  }

  pub then-IsSafe : (m : AppAction A) (n : AppAction B) → IsSafe m → IsSafe n → IsSafe (m >> n)
  then-IsSafe m n p q = bind-IsSafe m (λ _. n) p (λ _. q)

notify-IsHealthy :
    (payload : GoString) (r : Result RedisError (Unit {0})) (ss : List Subscriber) (a : App)
    → IsHealthy ss a
    → IsHealthy ss (notify payload r a).1
notify-IsHealthy payload (ok u) ss a h = h
notify-IsHealthy payload (err e) ss a h =
    let (b, done, sound, same, _) = publish_lem payload a.events h.bus in
    rw done (record {
      tables = h.tables;
      bus = sound;
      subscribed = same ∙ h.subscribed;
      running = h.running;
    })

pub publish_event-IsSafe : (payload : GoString) → IsSafe (publish_event payload)
unfolding publish_event
publish_event-IsSafe payload = record {
  at = λ ss a h.
      let (r, x) = Redis.publish payload a.redis in
      notify-IsHealthy payload r ss (record a { redis = x })
        (record { tables = h.tables; bus = h.bus; subscribed = h.subscribed; running = h.running });
}

pub enqueue_task-IsSafe : (t : Task) → IsSafe (enqueue_task t)
unfolding enqueue_task
enqueue_task-IsSafe t = record {
  at = λ ss a h. record {
    tables = h.tables;
    bus = h.bus;
    subscribed = h.subscribed;
    running = h.running;
  };
}

-- For `search`: a block is safe if its steps are.
pub ruleset safety = (
  pure-IsSafe, raise-IsSafe, on_redis-IsSafe, discard-IsSafe, attempt-IsSafe, then-IsSafe,
  publish_event-IsSafe, enqueue_task-IsSafe,
)
