-- ===== src/Config.antt =====
-- internal/config/config.go: the configuration, read from the environment.
pub mod Env
pub mod Validation
use go_fibe.Base.{
  ℕ, ℤ, pos, Bool, true, false, ◌||◌, ◌&&◌, Option, none, some, List, ◌++◌, any, if◌then◌else◌,
}
use go_fibe.Strings.{GoString, str, ◌==◌}
use go_fibe.Strings.Itoa.{itoa_ℤ}

pub record Config : Type 0 where
  pub env : GoString
  pub port : ℤ
  pub secret : GoString
  pub database_url : GoString
  pub db_max_connections : ℤ
  pub db_min_connections : ℤ
  -- Durations are in nanoseconds.
  pub db_acquire_timeout : ℤ
  pub redis_url : GoString
  pub allowed_hosts : List GoString
  pub cors_allowed_origins : List GoString
  pub public_origin : GoString
  pub trust_proxy_headers : Bool
  pub force_https : Bool
  pub assume_https : Bool
  pub hsts : Bool
  pub frame_ancestors : GoString
  pub x_frame_options : GoString
  pub csp_mode : GoString
  pub csp_connect_src : GoString
  pub cookie_secure : GoString
  pub cookie_same_site : GoString
  pub cookie_partitioned : Bool
  pub demo_password : GoString
  pub allow_private_monitor_urls : Bool
  pub worker_concurrency : ℤ
  pub monitor_check_interval : ℤ
  pub monitor_http_timeout : ℤ
  pub rate_limit_auth_per_minute : ℤ
  pub rate_limit_global_per_minute : ℤ

abbrev pub csp_mode_off : GoString
csp_mode_off = str "off"

abbrev pub csp_mode_report_only : GoString
csp_mode_report_only = str "report-only"

abbrev pub csp_mode_enforce : GoString
csp_mode_enforce = str "enforce"

abbrev pub cookie_secure_auto : GoString
cookie_secure_auto = str "auto"

abbrev pub cookie_secure_always : GoString
cookie_secure_always = str "true"

abbrev pub cookie_secure_never : GoString
cookie_secure_never = str "false"

unfoldable pub includes : List GoString → GoString → Bool
includes values target = any (λ value. value == target) values

-- The address that the server listens on
unfoldable pub bind_addr : Config → GoString
bind_addr c = str "0.0.0.0:" ++ itoa_ℤ c.port

unfoldable pub is_development : Config → Bool
is_development c = if c.env == str "production" then false else true

unfoldable pub allows_all_hosts : Config → Bool
unfolding includes
allows_all_hosts c = includes c.allowed_hosts (str "*")

unfoldable pub allows_all_origins : Config → Bool
unfolding includes
allows_all_origins c = includes c.cors_allowed_origins (str "*")

unfoldable pub cookie_secure_enabled : Config → Bool → Bool
cookie_secure_enabled c request_is_https =
    if c.cookie_secure == cookie_secure_always
    then true
    else if c.cookie_secure == cookie_secure_never
    then false
    else request_is_https || c.assume_https || c.force_https
