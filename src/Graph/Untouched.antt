-- ===== src/Graph/Untouched.antt =====
-- What a resolver of graph/schema.resolvers.go that only reads leaves as it was.
use go_fibe.Base.{
  arith, Option, none, ◌≡◌, ◌∙◌, refl, ap, sym, [], ◌∷◌, ◌++◌, all, all-append, Bool, true, false,
  some,
}
use go_fibe.Base.Exec.{pure, continue, Result, ok, err, ◌>>=◌, ◌>>◌}
use go_fibe.Strings.{GoString, ◌==◌}
use go_fibe.Models.{Dashboard}
use go_fibe.Ability.{Context, Resource, action_read}
use go_fibe.Db
use go_fibe.Db.Schema.{Tables, Statement}
use go_fibe.Db.Engine.{Store, query, Fate, answered, unacked, refused}
use go_fibe.Db.Keeps.{Keeps, query_keeps}
use go_fibe.App.{App, AppError, AppAction, on_store}
use go_fibe.Cache
use go_fibe.Redis
use go_fibe.Redis.{Redis, Log, Executed, Op, gets, sets, Reply, RedisError, settle}
use go_fibe.Strings.Equality.{eq_refl}
use mathlib.Core.List.{append_assoc}
use go_fibe.Graph.{
  dashboard_key, cached_dashboard, keep_dashboard, cached_or_read, guarded, required, or_internal,
}

-- GET and SET of the cached dashboard
abbrev pub is_dashboard_op : Executed → Bool
is_dashboard_op e = elim e.op [
  | gets j ↦ j == dashboard_key
  | sets j v ttl ↦ j == dashboard_key
  | _ ↦ false
]

-- Redis has executed nothing but commands on the cached dashboard.
pub record OnlyDashboard (x y : Redis) : Type 0 where
  pub between : Log
  pub log : y.log ≡ between ++ x.log
  pub of_dashboard : all is_dashboard_op between ≡ true

OnlyDashboard-refl : (x : Redis) → OnlyDashboard x x
OnlyDashboard-refl x = record { between = []; log = refl; of_dashboard = refl }

OnlyDashboard-trans : (x y z : Redis) → OnlyDashboard x y → OnlyDashboard y z → OnlyDashboard x z
OnlyDashboard-trans x y z p q = record {
  between = q.between ++ p.between;
  log = q.log ∙ ap (λ l. q.between ++ l) p.log ∙ sym (append_assoc q.between p.between x.log);
  of_dashboard =
      ground
        (arith, all-append is_dashboard_op q.between p.between, q.of_dashboard, p.of_dashboard);
}

settle-OnlyDashboard :
    {A : Type 0} (o : Fate) (read : Reply → Result RedisError A) (op : Op) (x : Redis)
    → is_dashboard_op (record { at = x.clock x.calls; op = op }) ≡ true
    → OnlyDashboard x (settle o read op x).1
settle-OnlyDashboard answered read op x h = record {
  between = record { at = x.clock x.calls; op = op } ∷ [];
  log = refl;
  of_dashboard = ground (arith, h);
}
settle-OnlyDashboard unacked read op x h = record {
  between = record { at = x.clock x.calls; op = op } ∷ [];
  log = refl;
  of_dashboard = ground (arith, h);
}
settle-OnlyDashboard refused read op x h = record { between = []; log = refl; of_dashboard = refl }

-- The rows, the queue and the local bus are as they were, and Redis has executed nothing but
-- commands on the cached dashboard.
pub record Untouched (a b : App) : Type 0 where
  pub tables : b.store.tables ≡ a.store.tables
  pub queue : b.queue ≡ a.queue
  pub events : b.events ≡ a.events
  pub redis : OnlyDashboard a.redis b.redis

-- An operation of the store that writes nothing.
pub record Reads {A : Type 0} (m : Db.Engine.Action A) : Type 0 where
  pub same : (s : Store) → (m s).1.tables ≡ s.tables

pub Reads-query :
    {A : Type 0} (stmt : Statement A)
    → ((t : Tables) → Keeps (λ t'. t' ≡ t) stmt)
    → Reads (query stmt)
Reads-query stmt k = record {
  same = λ s. query_keeps (λ t'. t' ≡ s.tables) stmt (k s.tables) s refl;
}

pub Untouched-refl : (a : App) → Untouched a a
Untouched-refl a = record {
  tables = refl;
  queue = refl;
  events = refl;
  redis = OnlyDashboard-refl a.redis;
}

Untouched-trans : (a b c : App) → Untouched a b → Untouched b c → Untouched a c
Untouched-trans a b c p q = record {
  tables = q.tables ∙ p.tables;
  queue = q.queue ∙ p.queue;
  events = q.events ∙ p.events;
  redis = OnlyDashboard-trans a.redis b.redis c.redis p.redis q.redis;
}

module _ {A B : Type 0} where
  continue-Untouched :
      (r : Result AppError A) (f : A → AppAction B) (a b : App)
      → Untouched a b
      → ((x : A) → Untouched b (f x b).1)
      → Untouched a (continue r f b).1
  continue-Untouched (ok x) f a b p k = Untouched-trans a b (f x b).1 p (k x)
  continue-Untouched (err e) f a b p k = p

  -- Two steps that leave all as it was, one after the other.
  pub bind-Untouched :
      (m : AppAction A) (f : A → AppAction B) (a : App)
      → Untouched a (m a).1
      → ((x : A) → Untouched (m a).1 (f x (m a).1).1)
      → Untouched a ((m >>= f) a).1
  bind-Untouched m f a p k = continue-Untouched (m a).0 f a (m a).1 p k

pub read-Untouched :
    {A : Type 0} (m : Db.Engine.Action A)
    → Reads m
    → (a : App) → Untouched a (or_internal (on_store m) a).1
unfolding or_internal on_store
read-Untouched m k a = record {
  tables = k.same a.store;
  queue = refl;
  events = refl;
  redis = OnlyDashboard-refl a.redis;
}

module _ {A : Type 0} (ctx : Context) (r : Resource) (m : Db.Engine.Action A) (k : Reads m) where
  pub list-Untouched :
      (a : App) → Untouched a ((required ctx action_read r >> or_internal (on_store m)) a).1
  list-Untouched a =
      bind-Untouched (required ctx action_read r) (λ _. or_internal (on_store m)) a
        (Untouched-refl a) (λ _. read-Untouched m k a)

pub guarded-Untouched : (b : Bool) (a : App) → Untouched a (guarded b a).1
guarded-Untouched true a = Untouched-refl a
guarded-Untouched false a = Untouched-refl a

pub cached_dashboard-Untouched : (a : App) → Untouched a (cached_dashboard a).1
unfolding Cache.get_json Redis.get Redis.send
cached_dashboard-Untouched a = record {
  tables = refl;
  queue = refl;
  events = refl;
  redis = settle-OnlyDashboard _ _ (gets dashboard_key) a.redis (eq_refl dashboard_key);
}

keep_dashboard-Untouched : (d : Dashboard) (a : App) → Untouched a (keep_dashboard d a).1
unfolding Cache.set_json Redis.set Redis.send
keep_dashboard-Untouched d a = kept (a.outside.encode_dashboard d)
  where
    kept :
        (raw : Option GoString)
        → Untouched a (record a { redis = (Cache.set_raw dashboard_key 10000000 raw a.redis).1 })
    kept none = Untouched-refl a
    kept (some raw) = record {
      tables = refl;
      queue = refl;
      events = refl;
      redis =
          settle-OnlyDashboard _ _ (sets dashboard_key raw 10000000) a.redis
            (eq_refl dashboard_key);
    }

pub cached_or_read-Untouched : (d : Option Dashboard) (a : App) → Untouched a (cached_or_read d a).1
unfolding Db.Dashboard.dashboard
cached_or_read-Untouched (some d) a = Untouched-refl a
cached_or_read-Untouched none a =
    bind-Untouched (or_internal (on_store Db.Dashboard.dashboard)) _ a
      (read-Untouched _ (Reads-query _ (λ t. record { at = λ now t' p. p })) a)
      (λ d.
        bind-Untouched (keep_dashboard d) (λ _. pure d) _ (keep_dashboard-Untouched d _)
          (λ _. Untouched-refl _))
