-- ===== src/Net.antt =====
-- What the program asks of packages net/url, net and net/netip, whose parsers are not modelled:
-- parsed URLs, split addresses, parsed IP addresses, and the answers of DNS.
use go_fibe.Base.{Bool, Option, List}
use go_fibe.Strings.{GoString}

pub record UserInfo : Type 0 where
  pub username : GoString
  pub password : Option GoString

-- url.URL
pub record Url : Type 0 where
  pub scheme : GoString
  pub opaque : GoString
  pub user : Option UserInfo
  pub host : GoString
  pub path : GoString
  pub raw_path : GoString
  pub omit_host : Bool
  pub force_query : Bool
  pub raw_query : GoString
  pub fragment : GoString
  pub raw_fragment : GoString

-- netip.Addr, by what the program asks of it.
pub record Addr : Type 0 where
  pub is_loopback : Bool
  pub is_private : Bool
  pub is_link_local_unicast : Bool
  pub is_link_local_multicast : Bool
  pub is_unspecified : Bool

pub record Net : Type 0 where
  -- url.Parse, URL.String, URL.Hostname and URL.Port
  pub parse_url : GoString → Option Url
  pub url_string : Url → GoString
  pub hostname : Url → GoString
  pub port : Url → GoString
  -- net.SplitHostPort, without the port
  pub split_host : GoString → Option GoString
  -- netip.ParseAddr
  pub parse_addr : GoString → Option Addr
  -- Resolver.LookupNetIP
  pub lookup_ip : GoString → Option (List Addr)
