-- ===== src/Security.antt =====
-- internal/security/security.go: which URLs may be monitored, and the middlewares.
pub mod Limiter
pub mod MonitorUrl
pub mod RateLimit
use go_fibe.Base.{
  ℕ, ◌/◌, ℤ, pos, ltb_ℤ, eqb, Bool, true, false, not, ◌&&◌, ◌||◌, Option, none, some, List, [], ◌∷◌,
  ◌++◌, any, if◌then◌else◌,
}
use go_fibe.Base.Exec.{Result, ok, err}
use go_fibe.Strings.{
  GoString, str, ◌==◌, is_empty, trim_space, to_lower, equal_fold, has_prefix, has_suffix, split,
  replace_all,
}
use go_fibe.Strings.Atoi.{atoi}
use go_fibe.Strings.Itoa.{itoa}
use go_fibe.Net.{Net, Url, UserInfo, Addr}
use go_fibe.Config.{Config, csp_mode_off, csp_mode_report_only, csp_mode_enforce, allows_all_hosts}
use go_fibe.Http.{Request, Writer, Handler, set_header, http_error}
use go_fibe.Redis.{Redis, RedisError, incr, expire}

unfoldable pub ip_is_private_or_local : Addr → Bool
ip_is_private_or_local a =
    a.is_loopback || a.is_private || a.is_link_local_unicast || a.is_link_local_multicast
    || a.is_unspecified

abbrev pub addr_is_private : Option Addr → Bool
addr_is_private none = false
addr_is_private (some a) = ip_is_private_or_local a

unfoldable pub host_is_private_or_local : Net → GoString → Bool
host_is_private_or_local net host =
    if equal_fold host (str "localhost") || has_suffix (to_lower host) (str ".localhost")
    then true
    else addr_is_private (net.parse_addr host)

unfoldable pub host_allowed : GoString → List GoString → Bool
host_allowed host allowed = any (equal_fold host) allowed

unfoldable pub csp_value : Config → GoString
csp_value cfg =
    if cfg.csp_mode == csp_mode_off
    then []
    else (let frame_ancestors =
          if is_empty cfg.frame_ancestors then str "*" else cfg.frame_ancestors in
        let self_or_origin =
          if is_empty cfg.csp_connect_src && not (is_empty cfg.public_origin)
          then str "'self' " ++ cfg.public_origin
          else cfg.csp_connect_src in
        let connect_src =
          if is_empty self_or_origin then str "'self' http: https: ws: wss:" else self_or_origin in
        str "default-src 'self'; base-uri 'self'; frame-ancestors "
        ++ (frame_ancestors
            ++ (str
                  "; script-src 'self' 'unsafe-inline'; style-src 'self' 'unsafe-inline'; img-src 'self' data: https:; connect-src "
                ++ connect_src)))

pub data UrlError : Type 0 where
  not_absolute not_http has_credentials not_public : UrlError
  -- ErrUnsafeMonitorURL
  unsafe_url : UrlError

-- `parsed.IsAbs()` and a host
abbrev pub has_host : Url → Bool
has_host u = not (is_empty u.scheme) && not (is_empty u.host)

abbrev pub is_http : Url → Bool
is_http u = u.scheme == str "http" || u.scheme == str "https"

abbrev pub has_user : Option UserInfo → Bool
has_user none = false
has_user (some x) = true

abbrev pub checked_url : Net → Config → Option Url → Result UrlError GoString
checked_url net cfg none = err not_absolute
checked_url net cfg (some u) =
    if not (has_host u)
    then err not_absolute
    else if not (is_http u)
    then err not_http
    else if has_user u.user
    then err has_credentials
    else if not cfg.allow_private_monitor_urls && host_is_private_or_local net (net.hostname u)
    then err not_public
    else ok (net.url_string (record u { fragment = [] }))

unfoldable pub normalize_monitor_url : Net → Config → GoString → Result UrlError GoString
normalize_monitor_url net cfg raw = checked_url net cfg (net.parse_url (trim_space raw))

-- The port of the URL, or its scheme's.
abbrev pub port_of : Net → Url → Option GoString
port_of net u =
    if not (is_empty (net.port u))
    then some (net.port u)
    else if u.scheme == str "http"
    then some (str "80")
    else if u.scheme == str "https"
    then some (str "443")
    else none

abbrev pub port_checked : Option ℤ → Result UrlError (Unit {0})
port_checked none = err unsafe_url
port_checked (some port) = ok tt

abbrev pub addrs_checked : GoString → Option (List Addr) → Result UrlError (Unit {0})
addrs_checked port none = err unsafe_url
addrs_checked port (some []) = err unsafe_url
addrs_checked port (some (a ∷ addrs)) =
    if any ip_is_private_or_local (a ∷ addrs) then err unsafe_url else port_checked (atoi port)

abbrev pub resolved : Net → Url → Option GoString → Result UrlError (Unit {0})
resolved net u none = err unsafe_url
resolved net u (some port) = addrs_checked port (net.lookup_ip (net.hostname u))

abbrev pub reparsed : Net → Option Url → Result UrlError (Unit {0})
reparsed net none = err unsafe_url
reparsed net (some u) = resolved net u (port_of net u)

abbrev pub ensured : Net → Config → Result UrlError GoString → Result UrlError (Unit {0})
ensured net cfg (err e) = err e
ensured net cfg (ok normalized) =
    if cfg.allow_private_monitor_urls then ok tt else reparsed net (net.parse_url normalized)

unfoldable pub ensure_monitor_url_allowed : Net → Config → GoString → Result UrlError (Unit {0})
ensure_monitor_url_allowed net cfg raw = ensured net cfg (normalize_monitor_url net cfg raw)

unfoldable pub request_is_https : Request → Bool → Bool
request_is_https r trust_proxy =
    if r.tls
    then true
    else trust_proxy && equal_fold (r.header (str "X-Forwarded-Proto")) (str "https")

-- strings.Split(s, ",")[0]; Split never returns an empty slice.
abbrev first_part : List GoString → GoString
first_part [] = []
first_part (p ∷ ps) = p

abbrev remote_key : Option GoString → GoString
remote_key none = str "local"
remote_key (some host) = replace_all host b':' b'_'

unfoldable pub rate_limit_key : Net → Request → Bool → GoString
rate_limit_key net r trust_proxy =
    let forwarded = trim_space (first_part (split (r.header (str "X-Forwarded-For")) b',')) in
    if trust_proxy && not (is_empty forwarded)
    then replace_all forwarded b':' b'_'
    else remote_key (net.split_host r.remote_addr)

abbrev pub or_host : GoString → Option GoString → GoString
or_host host none = host
or_host host (some h) = h

abbrev pub csp_header : Config → Writer → Writer
csp_header cfg w =
    let csp = csp_value cfg in
    if is_empty csp
    then w
    else (let reported =
          if cfg.csp_mode == csp_mode_report_only
          then set_header (str "Content-Security-Policy-Report-Only") csp w
          else w in
        if cfg.csp_mode == csp_mode_enforce
        then set_header (str "Content-Security-Policy") csp reported
        else reported)

unfoldable pub secured : Config → Writer → Writer
secured cfg w =
    let w1 =
      set_header (str "Permissions-Policy") (str "camera=(), microphone=(), geolocation=()") (
        set_header (str "Referrer-Policy") (str "strict-origin-when-cross-origin")
          (set_header (str "X-Content-Type-Options") (str "nosniff") w)) in
    let w2 =
      if cfg.hsts
      then set_header (str "Strict-Transport-Security") (str "max-age=31536000; includeSubDomains")
          w1
      else w1 in
    let w3 =
      if is_empty cfg.x_frame_options
      then w2
      else set_header (str "X-Frame-Options") cfg.x_frame_options w2 in
    csp_header cfg w3

module _ {S : Type 0} where
  unfoldable pub host_guard : Net → Config → Handler S → Handler S
  host_guard net cfg next r w s =
      if not (allows_all_hosts cfg)
        && not (host_allowed (or_host r.host (net.split_host r.host)) cfg.allowed_hosts)
      then (http_error 421 w, s)
      else next r w s

  unfoldable pub security_headers : Config → Handler S → Handler S
  security_headers cfg next r w s = next r (secured cfg w) s
