-- ===== src/Cache.antt =====
-- internal/cache/cache.go: values in Redis as JSON, whose codec at a type is an argument.
use go_fibe.Base.{ℕ, Option, none, some, List, [], ◌∷◌}
use go_fibe.Base.Exec.{Result, ok, err, pure}
use go_fibe.Strings.{GoString}
use go_fibe.Redis
use go_fibe.Redis.{Redis, RedisError, Command, nil, unreachable, bad_reply}

pub data CacheError : Type 0 where
  redis_error : RedisError → CacheError
  -- json.Unmarshal or json.Marshal
  bad_json : CacheError

abbrev written : Result RedisError (Unit {0}) → Result CacheError (Unit {0})
written (ok u) = ok tt
written (err e) = err (redis_error e)

abbrev pub set_raw : GoString → ℕ → Option GoString → Redis → Result CacheError (Unit {0}) × Redis
set_raw key ttl none x = (err bad_json, x)
set_raw key ttl (some raw) x = let (r, y) = Redis.set key raw ttl x in (written r, y)

module _ {A : Type 0} where
  abbrev decoded : Option A → Result CacheError (Option A)
  decoded none = err bad_json
  decoded (some v) = ok (some v)

  -- `ok none` is a miss.
  abbrev pub read_json :
      (GoString → Option A) → Result RedisError GoString → Result CacheError (Option A)
  read_json decode (ok raw) = decoded (decode raw)
  read_json decode (err nil) = ok none
  read_json decode (err unreachable) = err (redis_error unreachable)
  read_json decode (err bad_reply) = err (redis_error bad_reply)

  unfoldable pub get_json :
      (GoString → Option A) → GoString → Redis → Result CacheError (Option A) × Redis
  get_json decode key x = let (r, y) = Redis.get key x in (read_json decode r, y)

  -- The time to live is in microseconds.
  unfoldable pub set_json :
      (A → Option GoString) → GoString → A → ℕ → Redis → Result CacheError (Unit {0}) × Redis
  set_json encode key value ttl x = set_raw key ttl (encode value) x

abbrev pub delete : List GoString → Command (Unit {0})
delete [] = pure tt
delete (k ∷ ks) = Redis.del (k ∷ ks)
