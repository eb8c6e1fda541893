-- ===== src/Server.antt =====
-- internal/server/server.go: the middlewares around the router, and the handlers of its own.
pub mod Events
pub mod Frames
pub mod Health
pub mod Ordering
pub mod Pipeline
pub mod Routes
pub mod Serving
use go_fibe.Base.{
  ℕ, Bool, true, false, not, ◌&&◌, ◌||◌, Option, none, some, List, [], ◌∷◌, any, if◌then◌else◌,
}
use go_fibe.Base.Exec.{Result, ok, err}
use go_fibe.Strings.{GoString, str, ◌==◌}
use go_fibe.Models.{CurrentUser}
use go_fibe.Server.Events.{Stream}
use go_fibe.Ability.{Context, background, with_user}
use go_fibe.Config.{Config, allows_all_origins}
use go_fibe.Http.{Request, Writer, Handler, set_header, write_header}
use go_fibe.Security.{host_guard, security_headers}
use go_fibe.Security.Limiter.{rate_limit}
use go_fibe.Redis
use go_fibe.Redis.{Redis}
use go_fibe.Db.Schema.{Uuid, Tables}
use go_fibe.Db.Engine.{Store, Action, query}
use go_fibe.AppAuth.{current_user}
use go_fibe.App.{App}

unfoldable pub origin_allowed : GoString → List GoString → Bool
origin_allowed origin allowed = any (λ candidate. candidate == origin) allowed

abbrev pub origin_headers : Config → GoString → Writer → Writer
origin_headers cfg origin w =
    if allows_all_origins cfg
    then set_header (str "Access-Control-Allow-Origin") (str "*") w
    else if origin_allowed origin cfg.cors_allowed_origins
    then set_header (str "Access-Control-Allow-Credentials") (str "true") (
        set_header (str "Vary") (str "Origin")
          (set_header (str "Access-Control-Allow-Origin") origin w))
    else w

unfoldable pub cors_headers : Config → GoString → Writer → Writer
cors_headers cfg origin w =
    set_header (str "Access-Control-Allow-Methods") (str "GET, POST, OPTIONS") (
      set_header (str "Access-Control-Allow-Headers") (str "Content-Type, Authorization")
        (origin_headers cfg origin w))

unfoldable pub cors_middleware : {S : Type 0} → Config → Handler S → Handler S
cors_middleware cfg next r w s =
    let w' = cors_headers cfg (r.header (str "Origin")) w in
    if r.method == str "OPTIONS" then (write_header 204 w', s) else next r w' s

-- The server: the runtime, and the event streams that are open.
pub record Site : Type 0 where
  pub app : App
  pub streams : List Stream

abbrev pub with_app : App → Site → Site
with_app a s = record s { app = a }

abbrev with_redis : Redis → Site → Site
with_redis redis s = with_app (record s.app { redis = redis }) s

-- The middlewares of Serve around the router, outermost first; `unix` is the time of the request.
unfoldable pub pipeline : ℕ → Handler Site → Handler Site
pipeline unix router r w s =
    let a = s.app in
    let net = a.outside.net in
    cors_middleware a.config
      (host_guard net a.config (
        rate_limit (λ (t : Site). t.app.redis) with_redis net a.config unix
          (security_headers a.config router)))
      r w s

abbrev json : ℕ → Writer → Writer
json status w = write_header status (set_header (str "Content-Type") (str "application/json") w)

unfoldable pub up : {S : Type 0} → Handler S
up r w s = (json 200 w, s)

unfoldable pub api_not_found : {S : Type 0} → Handler S
api_not_found r w s = (json 404 w, s)

abbrev is_ok : {E A : Type 0} → Result E A → Bool
is_ok (ok a) = true
is_ok (err e) = false

-- pool.Ping
abbrev ping : Action (Unit {0})
ping = query λ now t. ok (tt, t)

unfoldable pub readyz : Handler App
readyz r w a =
    let (x, store) = ping a.store in
    let (y, redis) = Redis.ping a.redis in
    (
      json (if not (is_ok x) || not (is_ok y) then 503 else 200) w,
      record a { store = store; redis = redis },
    )

unfoldable pub metrics : {S : Type 0} → Handler S
metrics r w s =
    (write_header 200 (set_header (str "Content-Type") (str "text/plain; version=0.0.4") w), s)

abbrev context_of : Option CurrentUser → Context
context_of none = background
context_of (some user) = with_user background user

-- The context that graphqlHandler passes on to the resolvers.
unfoldable pub graphql_context : ⦃u : Uuid⦄ → Request → App → Context × App
graphql_context r a = let (user, b) = current_user r a in (context_of user, b)
