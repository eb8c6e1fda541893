-- ===== src/Db/Users.antt =====
-- The users of internal/db/store.go, and Seed.
use go_fibe.Base.{
  suc, ℤ, pos, Bool, true, Option, none, some, List, [], ◌∷◌, ◌++◌, any, find, update,
  if◌then◌else◌,
}
use go_fibe.Base.Exec.{Result, ok, err, ◌>>◌}
use go_fibe.Strings.{GoString, str, ◌==◌, to_lower, trim_space}
use go_fibe.Models.{User, Monitor, Time}
use go_fibe.Db.Schema.{Tables, Uuid, Statement, DbError, no_rows, with_uuid, with_text}
use go_fibe.Db.Engine.{Action, query}
use go_fibe.Db.Monitors.{has_key}

abbrev pub email_is : GoString → User → Bool
email_is email x = x.email == email

abbrev pub user_is : GoString → User → Bool
user_is id x = x.id == id

abbrev pub found : Option User → Tables → Result DbError (User × Tables)
found none t = err no_rows
found (some x) t = ok (x, t)

-- The address as it is looked up.
unfoldable pub normalize_email : GoString → GoString
normalize_email email = to_lower (trim_space email)

unfoldable pub user_by_email : GoString → Action User
unfolding normalize_email
user_by_email email =
    let key = normalize_email email in
    query (with_text key λ now t. found (find (email_is key) t.users) t)

-- A row of the INSERT of Seed into monitors.
pub record DemoMonitor : Type 0 where
  pub name : GoString
  pub url : GoString
  pub interval : ℤ

abbrev pub demo_monitors : List DemoMonitor
demo_monitors =
    record { name = str "Primary Website"; url = str "https://example.com"; interval = pos 120 }
    ∷ record { name = str "Go Website"; url = str "https://go.dev"; interval = pos 300 }
    ∷ record { name = str "Documentation Site"; url = str "https://pkg.go.dev"; interval = pos 300 }
    ∷ []

abbrev pub admin_email : GoString
admin_email = str "admin@example.com"

-- DO UPDATE SET name, role, password_hash
abbrev pub as_admin : GoString → User → User
as_admin hash x = record x { name = str "Demo Admin"; role = str "admin"; password_hash = hash }

-- DO UPDATE SET expected_status, interval_seconds, enabled, updated_at
abbrev pub as_demo : DemoMonitor → Time → Monitor → Monitor
as_demo d now m = record m {
  expected_status = pos 200;
  interval_seconds = d.interval;
  enabled = true;
  updated_at = now;
}

module _ ⦃u : Uuid⦄ where
  unfoldable pub user_by_id : GoString → Action User
  user_by_id s = query (with_uuid s λ id now t. found (find (user_is id) t.users) t)

  abbrev pub new_admin : GoString → Time → Tables → User
  new_admin hash now t = record {
    id = u.gen_random t.draws;
    email = admin_email;
    name = str "Demo Admin";
    role = str "admin";
    password_hash = hash;
    created_at = now;
  }

  unfoldable pub upsert_admin : GoString → Statement (Unit {0})
  upsert_admin hash = with_text hash λ now t.
      if any (email_is admin_email) t.users
      then ok (tt, record t { users = update (email_is admin_email) (as_admin hash) t.users })
      else ok (tt, record t { users = t.users ++ new_admin hash now t ∷ []; draws = suc t.draws })

  abbrev pub new_demo : DemoMonitor → Time → Tables → Monitor
  new_demo d now t = record {
    id = u.gen_random t.draws;
    name = d.name;
    url = d.url;
    method = str "GET";
    expected_status = pos 200;
    interval_seconds = d.interval;
    enabled = true;
    last_status = str "pending";
    last_latency_ms = none;
    last_checked_at = none;
    created_at = now;
    updated_at = now;
  }

  unfoldable pub upsert_demo : DemoMonitor → Time → Tables → Tables
  upsert_demo d now t =
      if any (has_key d.name d.url) t.monitors
      then record t { monitors = update (has_key d.name d.url) (as_demo d now) t.monitors }
      else record t { monitors = t.monitors ++ new_demo d now t ∷ []; draws = suc t.draws }

  unfoldable pub upsert_demos : List DemoMonitor → Time → Tables → Tables
  unfolding upsert_demo
  upsert_demos [] now t = t
  upsert_demos (d ∷ ds) now t = upsert_demos ds now (upsert_demo d now t)

  unfoldable pub seed_monitors : Statement (Unit {0})
  unfolding upsert_demos
  seed_monitors now t = ok (tt, upsert_demos demo_monitors now t)

  -- Seed, given the hash of the password.
  unfoldable pub seed : GoString → Action (Unit {0})
  unfolding upsert_admin seed_monitors
  seed hash = do query (upsert_admin hash); query seed_monitors
