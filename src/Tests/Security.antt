-- ===== src/Tests/Security.antt =====
-- Runs of the URL policy and of the rate limit.
use go_fibe.Base.{◌≡◌, ◌↔◌, refl, pos, arith, some}
use go_fibe.Base.Exec.{ok}
use go_fibe.Strings.{GoString, str, ◌==◌, is_empty, trim_space, equal_fold, to_lower, has_suffix}
use go_fibe.Net.{Url}
use go_fibe.Security.{
  normalize_monitor_url, ensure_monitor_url_allowed, host_is_private_or_local,
  ip_is_private_or_local,
}
use go_fibe.Security.MonitorUrl.{
  IsMonitorUrl, ResolvesPublicly, normalize_monitor_url_iff, ensure_monitor_url_allowed_sound,
  without_fragment,
}
use go_fibe.Security.RateLimit.{take_tokens, take_tokens_count, IsSteady}
use go_fibe.Redis.{Redis}
use go_fibe.Tests.RedisServer.{serve-IsRedis}
use go_fibe.Tests.World.{config, net, redis}

abbrev raw : GoString
raw = str " https://example.com "

normalize_monitor_url_iff_example :
    (normalize_monitor_url net config raw ≡ ok (str "https://example.com")) ↔ (
      (u : Url) × (net.parse_url (trim_space raw) ≡ some u)
      × IsMonitorUrl net config u
      × (str "https://example.com" ≡ net.url_string (without_fragment u)))
normalize_monitor_url_iff_example =
    normalize_monitor_url_iff net config raw (str "https://example.com")

ensure_monitor_url_allowed_sound_example :
    (normalized : GoString) × (normalize_monitor_url net config raw ≡ ok normalized)
    × ResolvesPublicly net config normalized
unfolding ensure_monitor_url_allowed normalize_monitor_url ◌==◌ trim_space go_fibe.Strings.is_space
    is_empty host_is_private_or_local equal_fold has_suffix to_lower ip_is_private_or_local
    go_fibe.Strings.Atoi.atoi
ensure_monitor_url_allowed_sound_example = ensure_monitor_url_allowed_sound net config raw refl refl

abbrev quick : Redis
quick = record redis { clock = λ n. 1000 }

quick-IsSteady : IsSteady 0 quick
quick-IsSteady = record {
  answers = λ n. refl;
  onward = λ n. omega arith;
  after = λ n. omega arith;
  before = λ n. omega arith;
}

take_tokens_count_example : (take_tokens 7 (str "rate:k") (pos 5) quick).0 ≡ 5
take_tokens_count_example =
    take_tokens_count 0 (str "rate:k") 5 7 quick serve-IsRedis quick-IsSteady refl
