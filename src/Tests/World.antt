-- ===== src/Tests/World.antt =====
-- A configuration, a world around the program, and an app in it.
use go_fibe.Base.{
  ℕ, suc, pos, ◌*◌, ◌≡◌, ◌∙◌, refl, ap, true, false, Option, none, some, [], ◌∷◌, ◌++◌, map,
  if◌then◌else◌,
}
use go_fibe.Strings.{GoString, str, ◌==◌}
use go_fibe.Models.{User}
use go_fibe.Net.{Net, Url, Addr}
use go_fibe.Config.{Config}
use go_fibe.Http.{Request}
use go_fibe.Event.{new_bus}
use go_fibe.Redis.{Redis}
use go_fibe.Db.Engine.{Store, answered}
use go_fibe.Server.{Site}
use go_fibe.App.{App, Outside, Payload, responded}
use go_fibe.Tests.RedisServer.{serve}
use go_fibe.Tests.Fixtures.{no_tables, site}

abbrev pub config : Config
config = record {
  env = str "production";
  port = pos 8080;
  secret = str "secret";
  database_url = str "postgres://";
  db_max_connections = pos 10;
  db_min_connections = pos 1;
  db_acquire_timeout = pos 5;
  redis_url = str "redis://";
  allowed_hosts = str "status.test" ∷ [];
  cors_allowed_origins = str "https://a.test" ∷ [];
  public_origin = [];
  trust_proxy_headers = false;
  force_https = false;
  assume_https = false;
  hsts = true;
  frame_ancestors = [];
  x_frame_options = [];
  csp_mode = str "off";
  csp_connect_src = [];
  cookie_secure = str "auto";
  cookie_same_site = str "lax";
  cookie_partitioned = false;
  demo_password = str "password";
  allow_private_monitor_urls = false;
  worker_concurrency = pos 4;
  monitor_check_interval = pos 30;
  monitor_http_timeout = pos 10;
  rate_limit_auth_per_minute = pos 5;
  rate_limit_global_per_minute = pos 100;
}

abbrev pub example_url : Url
example_url = record {
  scheme = str "https";
  user = none;
  host = str "example.com";
  opaque = [];
  path = [];
  raw_path = [];
  omit_host = false;
  force_query = false;
  raw_query = [];
  fragment = [];
  raw_fragment = [];
}

abbrev pub public_addr : Addr
public_addr = record {
  is_loopback = false;
  is_private = false;
  is_link_local_unicast = false;
  is_link_local_multicast = false;
  is_unspecified = false;
}

-- One URL parses, and every host has one public address.
abbrev pub net : Net
net = record {
  parse_url = λ s. if s == str "https://example.com" then some example_url else none;
  url_string = λ u. u.scheme ++ (str "://" ++ u.host);
  hostname = λ u. u.host;
  port = λ u. [];
  split_host = λ s. some s;
  parse_addr = λ s. none;
  lookup_ip = λ host. some (public_addr ∷ []);
}

-- The identifiers of a payload, with a zero between them.
abbrev encode_payload : Payload → GoString
encode_payload p = map suc p.job_run_id ++ ℕ.zero ∷ p.monitor_id

abbrev decode_from : GoString → GoString → Option Payload
decode_from seen [] = none
decode_from seen (ℕ.zero ∷ rest) = some (record { job_run_id = seen; monitor_id = rest })
decode_from seen (suc c ∷ rest) = decode_from (seen ++ c ∷ []) rest

append_assoc : (xs : GoString) (c : ℕ) (ys : GoString) → (xs ++ c ∷ []) ++ ys ≡ xs ++ c ∷ ys
append_assoc [] c ys = refl
append_assoc (x ∷ xs) c ys = ap (λ zs. x ∷ zs) (append_assoc xs c ys)

append_nil : (xs : GoString) → xs ≡ xs ++ []
append_nil [] = refl
append_nil (x ∷ xs) = ap (λ zs. x ∷ zs) (append_nil xs)

pub decode_from-encode :
    (seen id monitor : GoString)
    → decode_from seen (map suc id ++ ℕ.zero ∷ monitor)
      ≡ some (record { job_run_id = seen ++ id; monitor_id = monitor })
decode_from-encode seen [] monitor =
    ap (λ s. some (record { job_run_id = s; monitor_id = monitor })) (append_nil seen)
decode_from-encode seen (c ∷ id) monitor =
    decode_from-encode (seen ++ c ∷ []) id monitor
    ∙ ap (λ s. some (record { job_run_id = s; monitor_id = monitor })) (append_assoc seen c id)

abbrev pub outside : Outside
outside = record {
  net = net;
  accepts_request = λ method url. true;
  fetch = λ method url. responded 12 (pos 200);
  encode = encode_payload;
  decode = decode_from [];
  encode_dashboard = λ d. some (str "{}");
  decode_dashboard = λ s. none;
  decode-encode = λ p a b. decode_from-encode [] p.job_run_id p.monitor_id;
}

abbrev pub redis : Redis
redis = record { log = []; serve = serve; calls = 0; fate = λ n. answered; clock = λ n. 1000 * n }

abbrev pub admin : User
admin = record {
  id = 3 ∷ [];
  email = str "admin@example.com";
  name = str "Admin";
  role = str "admin";
  password_hash = str "hash";
  created_at = 0;
}

abbrev pub store : Store
store = record {
  tables = record no_tables { users = admin ∷ []; monitors = site ∷ []; draws = 8 };
  calls = 0;
  fate = λ n. answered;
  clock = λ n. 1000000 * n;
}

abbrev pub app : App
app = record {
  config = config;
  store = store;
  redis = redis;
  events = new_bus;
  queue = record { tasks = []; calls = 0; fate = λ n. answered };
  outside = outside;
  panicked = false;
}

abbrev pub idle_site : Site
idle_site = record { app = app; streams = [] }

abbrev pub request : Request
request = record {
  method = str "GET";
  host = str "status.test";
  path = str "/graphql";
  remote_addr = str "192.0.2.1";
  tls = false;
  header = λ k. [];
  cookie = λ k. none;
}
