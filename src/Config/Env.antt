-- ===== src/Config/Env.antt =====
-- FromEnv of internal/config/config.go. The environment is a function: a variable that is not set
-- reads as the empty text.
use go_fibe.Base.{
  ℤ, pos, Bool, true, false, not, ◌||◌, Option, none, some, List, [], ◌∷◌, ◌++◌, map, filter,
  if◌then◌else◌,
}
use go_fibe.Base.Exec.{Result, ok, err}
use go_fibe.Strings.{
  GoString, str, ◌==◌, is_empty, trim_space, to_lower, split, contains, has_prefix,
}
use go_fibe.Strings.Atoi.{atoi, wrap_mul}
use go_fibe.Net.{Net, Url, UserInfo}
use go_fibe.Config.{
  Config, csp_mode_off, csp_mode_report_only, csp_mode_enforce, cookie_secure_auto,
  cookie_secure_always, cookie_secure_never,
}

abbrev pub Getenv : Type 0
Getenv = GoString → GoString

unfoldable pub env_or : Getenv → GoString → GoString → GoString
env_or getenv key fallback =
    let value = trim_space (getenv key) in if is_empty value then fallback else value

unfoldable pub bool_env : Getenv → GoString → Bool → Bool
bool_env getenv key fallback =
    let value = to_lower (trim_space (getenv key)) in
    if value == str "true" || value == str "1" || value == str "yes"
    then true
    else if value == str "false" || value == str "0" || value == str "no"
    then false
    else fallback

abbrev or_fallback : ℤ → Option ℤ → ℤ
or_fallback fallback none = fallback
or_fallback fallback (some value) = value

unfoldable pub int_env : Getenv → GoString → ℤ → ℤ
int_env getenv key fallback =
    let raw = trim_space (getenv key) in
    if is_empty raw then fallback else or_fallback fallback (atoi raw)

unfoldable pub list_env : Getenv → GoString → GoString → List GoString
unfolding env_or
list_env getenv key fallback =
    filter (λ value. not (is_empty value))
      (map trim_space (split (env_or getenv key fallback) b','))

pub data ConfigError : Type 0 where
  database_url_required redis_url_required bad_csp_mode bad_cookie_secure : ConfigError

abbrev pub csp_default : GoString → GoString
csp_default env = if env == str "production" then str "report-only" else str "off"

-- The composite literal of FromEnv.
unfoldable pub read_env : Getenv → Config
unfolding env_or bool_env int_env list_env
read_env getenv =
    let env = env_or getenv (str "APP_ENV") (str "development") in
    record {
      env = env;
      port = int_env getenv (str "APP_PORT") (pos 3000);
      secret = env_or getenv (str "APP_SECRET") (str "dev-secret-change-me");
      database_url = getenv (str "DATABASE_URL");
      db_max_connections = wrap_mul 32 (int_env getenv (str "DB_MAX_CONNECTIONS") (pos 5)) 1;
      db_min_connections = wrap_mul 32 (int_env getenv (str "DB_MIN_CONNECTIONS") (pos 0)) 1;
      db_acquire_timeout =
          wrap_mul 64 (int_env getenv (str "DB_ACQUIRE_TIMEOUT_MS") (pos 1500)) 1000000;
      redis_url = getenv (str "REDIS_URL");
      allowed_hosts = list_env getenv (str "APP_ALLOWED_HOSTS") (str "*");
      cors_allowed_origins = list_env getenv (str "APP_CORS_ALLOWED_ORIGINS") (str "*");
      public_origin = trim_space (getenv (str "APP_PUBLIC_ORIGIN"));
      trust_proxy_headers = bool_env getenv (str "APP_TRUST_PROXY_HEADERS") true;
      force_https = bool_env getenv (str "APP_FORCE_HTTPS") false;
      assume_https = bool_env getenv (str "APP_ASSUME_HTTPS") false;
      hsts = bool_env getenv (str "APP_HSTS") false;
      frame_ancestors = trim_space (getenv (str "APP_FRAME_ANCESTORS"));
      x_frame_options = trim_space (getenv (str "APP_X_FRAME_OPTIONS"));
      csp_mode = env_or getenv (str "APP_CSP_MODE") (csp_default env);
      csp_connect_src = trim_space (getenv (str "APP_CSP_CONNECT_SRC"));
      cookie_secure = env_or getenv (str "APP_COOKIE_SECURE") (str "auto");
      cookie_same_site = env_or getenv (str "APP_COOKIE_SAMESITE") (str "lax");
      cookie_partitioned = bool_env getenv (str "APP_COOKIE_PARTITIONED") false;
      demo_password = env_or getenv (str "PUBLIC_DEMO_PASSWORD") (str "password");
      allow_private_monitor_urls = bool_env getenv (str "APP_ALLOW_PRIVATE_MONITOR_URLS") false;
      worker_concurrency = int_env getenv (str "WORKER_CONCURRENCY") (pos 2);
      monitor_check_interval =
          wrap_mul 64 (int_env getenv (str "MONITOR_CHECK_INTERVAL_SECONDS") (pos 30)) 1000000000;
      monitor_http_timeout =
          wrap_mul 64 (int_env getenv (str "MONITOR_HTTP_TIMEOUT_SECONDS") (pos 8)) 1000000000;
      rate_limit_auth_per_minute = int_env getenv (str "RATE_LIMIT_AUTH_PER_MINUTE") (pos 30);
      rate_limit_global_per_minute = int_env getenv (str "RATE_LIMIT_GLOBAL_PER_MINUTE") (pos 240);
    }

abbrev pub is_csp_mode : GoString → Bool
is_csp_mode m = m == csp_mode_off || m == csp_mode_report_only || m == csp_mode_enforce

abbrev pub is_cookie_secure : GoString → Bool
is_cookie_secure s =
    s == cookie_secure_auto || s == cookie_secure_always || s == cookie_secure_never

-- The checks of FromEnv, in their order.
unfoldable pub check_config : Config → Result ConfigError Config
check_config cfg =
    if is_empty cfg.database_url
    then err database_url_required
    else if is_empty cfg.redis_url
    then err redis_url_required
    else if not (is_csp_mode cfg.csp_mode)
    then err bad_csp_mode
    else if not (is_cookie_secure cfg.cookie_secure)
    then err bad_cookie_secure
    else ok cfg

unfoldable pub from_env : Getenv → Result ConfigError Config
unfolding read_env check_config
from_env getenv = check_config (read_env getenv)

-- asynq.RedisClientOpt, as far as it is filled in.
pub record RedisClientOpt : Type 0 where
  pub addr : GoString
  pub username : GoString
  pub password : GoString
  pub db : ℤ

-- strings.TrimPrefix(path, "/")
abbrev trim_slash : GoString → GoString
trim_slash [] = []
trim_slash (c ∷ s) = if has_prefix (c ∷ s) (str "/") then s else c ∷ s

-- Userinfo's methods answer the empty text where there is no user or no password.
abbrev username_of : Option UserInfo → GoString
username_of none = []
username_of (some x) = x.username

abbrev password_or : Option GoString → GoString
password_or none = []
password_or (some p) = p

abbrev password_of : Option UserInfo → GoString
password_of none = []
password_of (some x) = password_or x.password

-- net.JoinHostPort for a host without a colon.
abbrev with_port : GoString → GoString
with_port host = if contains host b':' then host else host ++ str ":6379"

abbrev db_of : GoString → Option ℤ
db_of path = if is_empty path then some (pos 0) else atoi path

abbrev client_opt : Url → Option ℤ → Option RedisClientOpt
client_opt u none = none
client_opt u (some db) = some (record {
  addr = with_port u.host;
  username = username_of u.user;
  password = password_of u.user;
  db = db;
})

abbrev opt_of_url : Option Url → Option RedisClientOpt
opt_of_url none = none
opt_of_url (some u) = client_opt u (db_of (trim_slash u.path))

-- RedisAsynqOpt; `none` is an error.
unfoldable pub redis_asynq_opt : Net → Config → Option RedisClientOpt
redis_asynq_opt net c = opt_of_url (net.parse_url c.redis_url)
