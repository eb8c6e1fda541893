-- ===== src/Security/MonitorUrl.antt =====
-- Which monitor URLs NormalizeMonitorURL and EnsureMonitorURLAllowed let through.
use go_fibe.Base.{
  ◌≡◌, ◌≢◌, ◌↔◌, ◌⊎◌, ◌∙◌, ap, sym, refl, true, false, Option, none, some, List, [], ◌∷◌, any,
  arith,
}
use go_fibe.Base.Exec.{Result, ok, err}
use go_fibe.Strings.{GoString, str, is_empty, trim_space}
use go_fibe.Strings.Equality.{eq_iff}
use go_fibe.Net.{Net, Url, Addr}
use go_fibe.Config.{Config}
use go_fibe.Security.{
  ip_is_private_or_local, host_is_private_or_local, checked_url, normalize_monitor_url, UrlError,
  ensure_monitor_url_allowed, ensured, reparsed, resolved, addrs_checked, port_of,
}

-- A URL that a monitor may have.
pub record IsMonitorUrl (net : Net) (cfg : Config) (u : Url) : Type 0 where
  pub has_host : u.host ≢ []
  pub is_http : (u.scheme ≡ str "http") ⊎ (u.scheme ≡ str "https")
  pub no_credentials : u.user ≡ none
  pub is_public :
      (cfg.allow_private_monitor_urls ≡ true)
      ⊎ (host_is_private_or_local net (net.hostname u) ≡ false)

abbrev pub without_fragment : Url → Url
without_fragment u = record u { fragment = [] }

module _ (net : Net) (cfg : Config) where
  checked_sound :
      (o : Option Url) (out : GoString)
      → checked_url net cfg o ≡ ok out
      → (u : Url) × (o ≡ some u)
        × IsMonitorUrl net cfg u
        × (out ≡ net.url_string (without_fragment u))
  unfolding is_empty
  checked_sound none out h = cc
  checked_sound (some u) out h = (
    u,
    refl,
    ground (arith, eq_iff u.scheme (str "http"), eq_iff u.scheme (str "https")),
    ground arith,
  )

  checked_complete :
      (u : Url)
      → IsMonitorUrl net cfg u
      → checked_url net cfg (some u) ≡ ok (net.url_string (without_fragment u))
  unfolding is_empty
  checked_complete u v = ground (arith, eq_iff u.scheme (str "http"), eq_iff u.scheme (str "https"))

  -- NormalizeMonitorURL accepts exactly the texts that parse, without the spaces around them, to an
  -- http or https URL with a host, without credentials and with a public host unless private ones
  -- are allowed, and returns that URL without its fragment.
  pub normalize_monitor_url_iff :
      (raw out : GoString)
      → (normalize_monitor_url net cfg raw ≡ ok out) ↔ (
          (u : Url) × (net.parse_url (trim_space raw) ≡ some u)
          × IsMonitorUrl net cfg u
          × (out ≡ net.url_string (without_fragment u)))
  unfolding normalize_monitor_url
  normalize_monitor_url_iff raw out = (
    checked_sound (net.parse_url (trim_space raw)) out,
    λ (u, e, v, same). rw (e, checked_url) (checked_complete u v ∙ ap ok (sym same)),
  )

  -- What a URL that is let through resolves to: addresses, none of them private.
  pub record ResolvesPublicly (normalized : GoString) : Type 0 where
    pub url : Url
    pub parsed : net.parse_url normalized ≡ some url
    pub addrs : List Addr
    pub looked_up : net.lookup_ip (net.hostname url) ≡ some addrs
    pub some_addr : addrs ≢ []
    pub none_private : any ip_is_private_or_local addrs ≡ false

  addrs_sound :
      (port : GoString) (o : Option (List Addr))
      → addrs_checked port o ≡ ok tt
      → (addrs : List Addr) × (o ≡ some addrs)
        × (addrs ≢ [])
        × (any ip_is_private_or_local addrs ≡ false)
  addrs_sound port none h = cc
  addrs_sound port (some []) h = cc
  addrs_sound port (some (a ∷ addrs)) h = (a ∷ addrs, refl, λ e. cc, ground arith)

  resolved_sound :
      (u : Url) (o : Option GoString)
      → resolved net u o ≡ ok tt
      → (addrs : List Addr) × (net.lookup_ip (net.hostname u) ≡ some addrs)
        × (addrs ≢ [])
        × (any ip_is_private_or_local addrs ≡ false)
  resolved_sound u none h = cc
  resolved_sound u (some port) h = addrs_sound port (net.lookup_ip (net.hostname u)) h

  reparsed_sound :
      (normalized : GoString) (o : Option Url)
      → net.parse_url normalized ≡ o
      → reparsed net o ≡ ok tt
      → ResolvesPublicly normalized
  reparsed_sound normalized none e h = cc
  reparsed_sound normalized (some u) e h =
      let (addrs, l, ne, p) = resolved_sound u (port_of net u) h in
      record { url = u; parsed = e; addrs = addrs; looked_up = l; some_addr = ne; none_private = p }

  ensured_sound :
      (r : Result UrlError GoString)
      → cfg.allow_private_monitor_urls ≡ false
      → ensured net cfg r ≡ ok tt
      → (normalized : GoString) × (r ≡ ok normalized) × ResolvesPublicly normalized
  ensured_sound (err e) strict h = cc
  ensured_sound (ok normalized) strict h =
      (normalized, refl, reparsed_sound normalized (net.parse_url normalized) refl (ground arith))

  -- With private URLs disallowed, EnsureMonitorURLAllowed lets a URL through only if
  -- NormalizeMonitorURL accepts it and the host of the result resolves to at least one address and
  -- to no private or local one.
  pub ensure_monitor_url_allowed_sound :
      (raw : GoString)
      → cfg.allow_private_monitor_urls ≡ false
      → ensure_monitor_url_allowed net cfg raw ≡ ok tt
      → (normalized : GoString) × (normalize_monitor_url net cfg raw ≡ ok normalized)
        × ResolvesPublicly normalized
  unfolding ensure_monitor_url_allowed
  ensure_monitor_url_allowed_sound raw strict h =
      ensured_sound (normalize_monitor_url net cfg raw) strict h
