-- ===== src/Tests/Fixtures.antt =====
-- An identifier scheme, a store and some rows.
use go_fibe.Base.{ℕ, suc, pos, ◌*◌, refl, ◌≡◌, true, none, some, [], ◌∷◌, arith}
use go_fibe.Strings.{GoString, str}
use go_fibe.Models.{Monitor}
use go_fibe.Db.Schema.{Uuid, Tables}
use go_fibe.Db.Engine.{Store, Fate, answered, unacked}

pub head_injective : (n m : ℕ) → ◌≡◌ {A = GoString} (n ∷ []) (m ∷ []) → n ≡ m
head_injective n m e = ground arith

-- Every text is an identifier, and the n-th draw is the text of one character.
instance abbrev pub plain_uuid : Uuid
plain_uuid = record {
  cast = λ s. some s;
  gen_random = λ n. n ∷ [];
  cast-cast = λ s c e. refl;
  cast-gen_random = λ n. refl;
  gen_random_injective = head_injective;
}

abbrev pub no_tables : Tables
no_tables = record {
  users = [];
  monitors = [];
  check_events = [];
  incidents = [];
  job_runs = [];
  maintenance_runs = [];
  draws = 1;
}

-- The server answers all but its fourth call.
abbrev pub fates : ℕ → Fate
fates (suc (suc (suc ℕ.zero))) = unacked
fates _ = answered

abbrev pub new_store : Store
new_store = record { tables = no_tables; calls = 0; fate = fates; clock = λ n. 1000000 * n }

abbrev pub site : Monitor
site = record {
  id = 7 ∷ [];
  name = str "Site";
  url = str "https://example.com";
  method = str "GET";
  expected_status = pos 200;
  interval_seconds = pos 60;
  enabled = true;
  last_status = str "pending";
  last_latency_ms = none;
  last_checked_at = none;
  created_at = 0;
  updated_at = 0;
}

abbrev pub site_store : Store
site_store = record new_store { tables = record no_tables { monitors = site ∷ []; draws = 8 } }
