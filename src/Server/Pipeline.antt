-- ===== src/Server/Pipeline.antt =====
-- Which requests the middlewares of internal/server/server.go let through to the router.
use go_fibe.Base.{
  ℕ, ◌≡◌, refl, arith, true, false, not, ◌&&◌, ◌||◌, none, some, inl, inr, ◌⊎◌, Bool-cases,
}
use go_fibe.Strings.{GoString, str, ◌==◌}
use go_fibe.Config.{Config, allows_all_origins, allows_all_hosts}
use go_fibe.Http.{Request, Writer, Handler, http_error, new_writer}
use go_fibe.Security.{host_guard, security_headers, host_allowed, or_host, secured}
use go_fibe.Security.Limiter.{
  rate_limit, is_exempt, take_token, rate_key, limit_of, Verdict, passes, unavailable, too_many,
  limited,
}
use go_fibe.Redis.{Redis}
use go_fibe.App.{App}
use go_fibe.Server.{Site, cors_headers, cors_middleware, pipeline, origin_allowed, with_redis}

-- A response to a cross-origin request allows credentials only if the list has no wildcard and has
-- the origin, and it then names that origin.
pub cors_credentials :
    (cfg : Config) (origin : GoString)
    → (cors_headers cfg origin new_writer).header (str "Access-Control-Allow-Credentials")
      ≡ str "true"
    → (allows_all_origins cfg ≡ false)
      × (origin_allowed origin cfg.cors_allowed_origins ≡ true)
      × ((cors_headers cfg origin new_writer).header (str "Access-Control-Allow-Origin") ≡ origin)
unfolding cors_headers ◌==◌
cors_credentials cfg origin h = ground arith

-- What lets a request through to the router.
pub record IsAdmitted (unix : ℕ) (r : Request) (a : App) : Type 0 where
  pub no_preflight : (r.method == str "OPTIONS") ≡ false
  pub host_known :
      (allows_all_hosts a.config
        || host_allowed (or_host r.host (a.outside.net.split_host r.host)) a.config.allowed_hosts)
      ≡ true
  pub within_limit :
      (is_exempt r.path ≡ true)
      ⊎ ((take_token (rate_key a.outside.net a.config r unix) (limit_of a.config r.path) a.redis).0
          ≡ passes)

-- What the middlewares answer by themselves.
pub record IsTurnedAway (s t : Site) (w : Writer) : Type 0 where
  pub status :
      (w.status ≡ some 204) ⊎ (w.status ≡ some 421) ⊎ (w.status ≡ some 429) ⊎ (w.status ≡ some 503)
  pub redis : Redis
  pub only_redis : t ≡ with_redis redis s

module _ (unix : ℕ) (router : Handler Site) (r : Request) (w : Writer) (s : Site) where
  abbrev a : App
  a = s.app

  abbrev pub AnsweredBy : Writer × Site → Type 0
  AnsweredBy (w', t) =
      IsTurnedAway s t w'
      ⊎ (IsAdmitted unix r a
          × ((redis : Redis) × ((w', t)
                ≡ router r (secured a.config (cors_headers a.config (r.header (str "Origin")) w))
                    (with_redis redis s))))

  abbrev w1 : Writer
  w1 = cors_headers a.config (r.header (str "Origin")) w

  abbrev inner : Handler Site
  inner = security_headers a.config router

  cors_status : w.status ≡ none → w1.status ≡ none
  unfolding cors_headers
  cors_status h = ground arith

  turned :
      (code : ℕ) (redis : Redis)
      → ((code ≡ 421) ⊎ (code ≡ 429) ⊎ (code ≡ 503))
      → w.status ≡ none
      → IsTurnedAway s (with_redis redis s) (http_error code w1)
  turned code redis c h = record {
    status = ground (arith, cors_status h, c);
    redis = redis;
    only_redis = refl;
  }

  module _ (h : w.status ≡ none) (no_preflight : (r.method == str "OPTIONS") ≡ false)
      (known : (allows_all_hosts a.config
          || host_allowed (or_host r.host (a.outside.net.split_host r.host)) a.config.allowed_hosts)
        ≡ true) where
    limited_lem :
        (v : Verdict) (redis : Redis)
        → (take_token (rate_key a.outside.net a.config r unix) (limit_of a.config r.path) a.redis).0
          ≡ v
        → AnsweredBy (limited (λ (t : Site). t.app.redis) with_redis inner r w1 s (v, redis))
    unfolding security_headers
    limited_lem passes redis e = inr (
      record { no_preflight = no_preflight; host_known = known; within_limit = inr e },
      (redis, refl),
    )
    limited_lem unavailable redis e = inl (turned 503 redis (inr (inr refl)) h)
    limited_lem too_many redis e = inl (turned 429 redis (inr (inl refl)) h)

    rate_limit_lem :
        AnsweredBy (
          rate_limit
            (λ (t : Site). t.app.redis)
            with_redis
            a.outside.net
            a.config
            unix
            inner
            r
            w1
            s)
    unfolding rate_limit security_headers
    rate_limit_lem = elim (Bool-cases (is_exempt r.path)) [
      | inl e ↦ rw e (
          inr (
            record { no_preflight = no_preflight; host_known = known; within_limit = inl e },
            (a.redis, refl),
          ))
      | inr e ↦
          let (v, redis) =
            take_token (rate_key a.outside.net a.config r unix) (limit_of a.config r.path)
              a.redis in
          rw e (limited_lem v redis refl)
    ]

  -- A request with no response yet is turned away with status 204, 421, 429 or 503 before anything
  -- but Redis is touched, or it is no OPTIONS request, is for an allowed host, is exempt from the
  -- rate limit or within it, and reaches the router with the CORS and security headers set.
  pub pipeline_lem : w.status ≡ none → AnsweredBy (pipeline unix router r w s)
  unfolding pipeline cors_middleware host_guard
  pipeline_lem h = elim (Bool-cases (r.method == str "OPTIONS")) [
    | inl e ↦ rw e (
        inl (record {
          status = ground (arith, cors_status h);
          redis = s.app.redis;
          only_redis = refl;
        }))
    | inr e ↦
        elim (Bool-cases (
          not (allows_all_hosts a.config)
          && not (
              host_allowed (or_host r.host (a.outside.net.split_host r.host))
                a.config.allowed_hosts))) [
                  | inl stranger ↦ rw (e, stranger) (inl (turned 421 a.redis (inl refl) h))
                  | inr known ↦ rw (e, known) (rate_limit_lem h e (ground arith))
                ]
  ]
