-- ===== src/AppAuth.antt =====
-- internal/appauth/auth.go: sessions. What comes from outside is an argument of the handlers: the
-- decoded body, argon2id's comparison, and the bytes of rand.Read.
pub mod Tokens
pub mod Health
pub mod Sessions
use go_fibe.Base.{
  ℕ, suc, ◌+◌, ◌*◌, ◌/◌, ◌%◌, ◌^◌, Bool, true, false, ◌||◌, Option, none, some, List, [], ◌∷◌, ◌++◌,
  eqb, if◌then◌else◌,
}
use go_fibe.Base.Exec.{Result, ok, err}
use go_fibe.Strings.{GoString, str, ◌==◌, is_empty, encode, to_lower}
use go_fibe.Strings.Base64.{raw_url_encode}
use go_fibe.Models.{User, CurrentUser}
use go_fibe.Config.{Config, cookie_secure_enabled}
use go_fibe.Security.{request_is_https}
use go_fibe.Http.{
  Request, Writer, Cookie, SameSite, lax, strict, no_restriction, set_header, write_header,
  set_cookie,
}
use go_fibe.Redis
use go_fibe.Redis.{Redis, RedisError}
use go_fibe.Db.Schema.{Uuid, DbError}
use go_fibe.Db.Engine.{Store}
use go_fibe.Db.Users.{user_by_email, user_by_id}
use go_fibe.App.{App}
use go_fibe.AppAuth.Tokens.{
  xor_bits, fnv_step, fold_bytes, bytes_of, bytes_of_hash, stable_secret_fingerprint, session_key,
  new_session_token,
}

abbrev pub session_cookie : GoString
session_cookie = str "uptime_session"

abbrev pub session_ttl_seconds : ℕ
session_ttl_seconds = 604800

-- The same, in microseconds.
abbrev pub session_ttl : ℕ
session_ttl = session_ttl_seconds * 1000000

pub record LoginRequest : Type 0 where
  pub email : GoString
  pub password : GoString

-- What a handler answers: the JSON value that it writes.
pub data Body : Type 0 where
  failure : GoString → Body
  session_response : Option CurrentUser → Body

abbrev pub write_json : ℕ → Body → Writer → Body × Writer
write_json status value w =
    (value, write_header status (set_header (str "Content-Type") (str "application/json") w))

abbrev pub current_user_of : User → CurrentUser
current_user_of user = record {
  id = user.id;
  email = user.email;
  name = user.name;
  role = user.role;
}

unfoldable pub same_site : GoString → SameSite
same_site raw =
    if to_lower raw == str "strict"
    then strict
    else if to_lower raw == str "none"
    then no_restriction
    else lax

unfoldable pub session_cookie_header : Config → Request → GoString → Option ℕ → Cookie
unfolding same_site
session_cookie_header cfg r value max_age = record {
  name = session_cookie;
  value = value;
  path = str "/";
  http_only = true;
  secure =
      if cfg.cookie_partitioned
      then true
      else cookie_secure_enabled cfg (request_is_https r cfg.trust_proxy_headers);
  same_site = same_site cfg.cookie_same_site;
  max_age = max_age;
  partitioned = cfg.cookie_partitioned;
}

unfoldable pub session_cookie_value : Config → Request → GoString → Cookie
unfolding session_cookie_header
session_cookie_value cfg r token = session_cookie_header cfg r token (some session_ttl_seconds)

abbrev unauthorized : Writer → Body × Writer
unauthorized w = write_json 401 (failure (str "invalid credentials")) w

abbrev broken : Writer → Body × Writer
broken w = write_json 500 (failure (str "internal server error")) w

module _ ⦃u : Uuid⦄ where
  abbrev stored :
      User → GoString → Request → Writer → App → Result RedisError (Unit {0}) → Body × Writer
  stored user token r w a (err e) = broken w
  stored user token r w a (ok x) =
      write_json 200 (session_response (some (current_user_of user)))
        (set_cookie (session_cookie_value a.config r token) w)

  abbrev open_session : User → Option GoString → Request → Writer → App → (Body × Writer) × App
  open_session user none r w a = (broken w, a)
  open_session user (some token) r w a =
      let (x, redis) = Redis.set (session_key a.config.secret token) user.id session_ttl a.redis in
      (stored user token r w a x, record a { redis = redis })

  -- `verify` is argon2id.ComparePasswordAndHash, `none` its error.
  abbrev verified :
      Option Bool → User → Option (List ℕ) → Request → Writer → App → (Body × Writer) × App
  verified (some true) user raw r w a = open_session user (new_session_token raw) r w a
  verified _ user raw r w a = (unauthorized w, a)

  abbrev found_user :
      (GoString → GoString → Option Bool)
      → LoginRequest
      → Result DbError User
      → Option (List ℕ)
      → Request
      → Writer
      → App
      → (Body × Writer) × App
  found_user verify input (err e) raw r w a = (unauthorized w, a)
  found_user verify input (ok user) raw r w a =
      verified (verify input.password user.password_hash) user raw r w a

  -- `input` is what the body decodes to, and `raw` the outcome of rand.Read.
  unfoldable pub login :
      (GoString → GoString → Option Bool)
      → Option LoginRequest
      → Option (List ℕ)
      → Request
      → Writer
      → App
      → (Body × Writer) × App
  login verify none raw r w a = (write_json 400 (failure (str "invalid request")) w, a)
  login verify (some input) raw r w a =
      let (x, store) = user_by_email input.email a.store in
      found_user verify input x raw r w (record a { store = store })

  abbrev closed : Option GoString → App → App
  closed none a = a
  closed (some token) a = record a {
    redis = (Redis.del (session_key a.config.secret token ∷ []) a.redis).1;
  }

  unfoldable pub logout : Request → Writer → App → (Body × Writer) × App
  logout r w a =
      let w' = set_cookie (session_cookie_header a.config r [] none) w in
      (write_json 200 (session_response none) w', closed (r.cookie session_cookie) a)

  abbrev pub as_current : Result DbError User → Option CurrentUser
  as_current (err e) = none
  as_current (ok user) = some (current_user_of user)

  abbrev by_id : Result RedisError GoString → App → Option CurrentUser × App
  by_id (err e) a = (none, a)
  by_id (ok id) a =
      let (x, store) = user_by_id id a.store in (as_current x, record a { store = store })

  abbrev by_cookie : Option GoString → App → Option CurrentUser × App
  by_cookie none a = (none, a)
  by_cookie (some token) a =
      if is_empty token
      then (none, a)
      else (let (x, redis) = Redis.get (session_key a.config.secret token) a.redis in
          by_id x (record a { redis = redis }))

  unfoldable pub current_user : Request → App → Option CurrentUser × App
  current_user r a = by_cookie (r.cookie session_cookie) a

  abbrev named : Option CurrentUser → Option CurrentUser
  named none = none
  named (some user) = if is_empty user.id then none else some user

  unfoldable pub session : Request → Writer → App → (Body × Writer) × App
  session r w a =
      let (user, b) = current_user r a in (write_json 200 (session_response (named user)) w, b)
