-- ===== src/Graph/Freshness.antt =====
-- How current the dashboard of graph/schema.resolvers.go is.
use go_fibe.Base.{◌≡◌, ◌≢◌, refl, arith, any, ◌++◌, true, false, Option, none}
use go_fibe.Base.Exec.{Result, ok, err}
use go_fibe.Strings.{GoString, ◌==◌}
use go_fibe.Models.{Dashboard, CurrentUser}
use go_fibe.Ability.{Context, require, action_read, resource_monitor}
use go_fibe.Cache
use go_fibe.Redis
use go_fibe.Redis.{Redis, RedisError, nil, unreachable, bad_reply, Log}
use go_fibe.Redis.Laws.{IsRedis, is_written}
use go_fibe.Redis.Entries.{get-del, executed_ok}
use go_fibe.Db
use go_fibe.App.{App, on_store}
use go_fibe.Jobs.{dashboard_keys}
use go_fibe.Graph
use go_fibe.Graph.{dashboard_key, hit_of, or_internal, cached_or_read}

-- The entry is gone, so that reading it finds nothing or fails.
read_missed :
    (decode : GoString → Option Dashboard) (r : Result RedisError GoString)
    → ((raw : GoString) → r ≢ ok raw)
    → hit_of (Cache.read_json decode r) ≡ none
read_missed decode (ok raw) n = elim (n raw refl) [ ]
read_missed decode (err nil) n = refl
read_missed decode (err unreachable) n = refl
read_missed decode (err bad_reply) n = refl

keys_have : any (λ j. j == dashboard_key) dashboard_keys ≡ true
unfolding ◌==◌
keys_have = refl

read_result :
    (a : App) → (cached_or_read none a).0 ≡ (or_internal (on_store Db.Dashboard.dashboard) a).0
unfolding or_internal on_store
read_result a = ground arith

-- After a change that cleared the cache, with Redis answering, and until Redis executes another
-- command on the cached dashboard, a caller who may see the dashboard gets one that is read from
-- the rows.
pub dashboard_after_clearing :
    (ctx : Context) (user : CurrentUser) (a b : App) (between : Log)
    → require ctx action_read resource_monitor ≡ ok user
    → IsRedis a.redis.serve
    → (Redis.del dashboard_keys a.redis).0 ≡ ok tt
    → b.redis.serve ≡ a.redis.serve
    → b.redis.log ≡ between ++ (Redis.del dashboard_keys a.redis).1.log
    → is_written dashboard_key between ≡ false
    → (Graph.dashboard ctx b).0 ≡ (or_internal (on_store Db.Dashboard.dashboard) b).0
unfolding Graph.dashboard Cache.get_json or_internal on_store
dashboard_after_clearing ctx user a b between allowed v cleared serve log h =
    let missed = read_missed b.outside.decode_dashboard (Redis.get dashboard_key b.redis).0 (λ raw.
      get-del a.redis b.redis between dashboard_key v serve h dashboard_keys raw keys_have
        (executed_ok dashboard_keys a.redis cleared) log) in
    rw (allowed, missed) (read_result _)
