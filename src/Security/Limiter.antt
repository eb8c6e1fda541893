-- ===== src/Security/Limiter.antt =====
-- RateLimit of internal/security/security.go.
use go_fibe.Base.{ℕ, ◌/◌, ℤ, pos, ltb_ℤ, eqb, Bool, ◌||◌, ◌++◌, if◌then◌else◌}
use go_fibe.Base.Exec.{Result, ok, err}
use go_fibe.Strings.{GoString, str, ◌==◌, has_prefix}
use go_fibe.Strings.Itoa.{itoa}
use go_fibe.Net.{Net}
use go_fibe.Config.{Config}
use go_fibe.Http.{Request, Writer, Handler, http_error}
use go_fibe.Redis.{Redis, RedisError, incr, expire}
use go_fibe.Security.{rate_limit_key}

-- Paths that are not limited.
unfoldable pub is_exempt : GoString → Bool
is_exempt path = path == str "/up" || path == str "/readyz" || has_prefix path (str "/assets/")

unfoldable pub limit_of : Config → GoString → ℤ
limit_of cfg path =
    if has_prefix path (str "/auth/")
    then cfg.rate_limit_auth_per_minute
    else cfg.rate_limit_global_per_minute

-- `unix` is time.Now().Unix().
unfoldable pub rate_key : Net → Config → Request → ℕ → GoString
rate_key net cfg r unix =
    str "rate:" ++ (rate_limit_key net r cfg.trust_proxy_headers ++ (str ":" ++ itoa (unix / 60)))

-- What became of a request at the limiter.
pub data Verdict : Type 0 where
  passes unavailable too_many : Verdict

abbrev decided : ℤ → ℕ → Redis → Verdict × Redis
decided limit count redis = (if ltb_ℤ limit (pos count) then too_many else passes, redis)

abbrev counted : GoString → ℤ → Result RedisError ℕ → Redis → Verdict × Redis
counted key limit (err e) redis = (unavailable, redis)
counted key limit (ok count) redis =
    if eqb count 1
    then decided limit count (expire key 75000000 redis).1
    else decided limit count redis

-- The part of RateLimit that talks to Redis.
unfoldable pub take_token : GoString → ℤ → Redis → Verdict × Redis
take_token key limit redis = let (r, redis') = incr key redis in counted key limit r redis'

-- The handlers share a state of which Redis is a part.
module _ {S : Type 0} (redis_of : S → Redis) (with_redis : Redis → S → S) where
  abbrev pub limited : Handler S → Request → Writer → S → Verdict × Redis → Writer × S
  limited next r w s (passes, redis) = next r w (with_redis redis s)
  limited next r w s (unavailable, redis) = (http_error 503 w, with_redis redis s)
  limited next r w s (too_many, redis) = (http_error 429 w, with_redis redis s)

  unfoldable pub rate_limit : Net → Config → ℕ → Handler S → Handler S
  rate_limit net cfg unix next r w s =
      if is_exempt r.path
      then next r w s
      else limited next r w s
          (take_token (rate_key net cfg r unix) (limit_of cfg r.path) (redis_of s))
