-- ===== src/AppAuth/Health.antt =====
-- The handlers of internal/appauth/auth.go keep the runtime healthy.
use go_fibe.Base.{ℕ, Bool, true, false, Option, none, some, List, [], ◌∷◌}
use go_fibe.Base.Exec.{Result, ok, err}
use go_fibe.Strings.{GoString, is_empty}
use go_fibe.Models.{User}
use go_fibe.Http.{Request, Writer}
use go_fibe.Event.{Subscriber}
use go_fibe.Redis.{Redis, RedisError}
use go_fibe.Db.Schema.{Uuid, DbError, Tables}
use go_fibe.Db.Engine.{Store}
use go_fibe.Db.Keeps.{Holds, Keeps-with_text, Keeps-with_uuid, query_keeps}
use go_fibe.Db.Consistency.{IsConsistent}
use go_fibe.Db.Users.{user_by_email, user_by_id, found}
use go_fibe.App.{App}
use go_fibe.App.Health.{IsHealthy}
use go_fibe.AppAuth.{
  LoginRequest, login, logout, session, current_user, found_user, verified, open_session, closed,
  by_cookie, by_id,
}
use go_fibe.AppAuth.Tokens.{new_session_token}

found-Holds : (o : Option User) (t : Tables) → IsConsistent t → Holds IsConsistent (found o t)
found-Holds none t h = tt
found-Holds (some x) t h = h

with_redis-IsHealthy :
    (ss : List Subscriber) (a : App) (x : Redis)
    → IsHealthy ss a
    → IsHealthy ss (record a { redis = x })
with_redis-IsHealthy ss a x h = record {
  tables = h.tables;
  bus = h.bus;
  subscribed = h.subscribed;
  running = h.running;
}

with_store-IsHealthy :
    (ss : List Subscriber) (a : App) (s : Store)
    → IsConsistent s.tables
    → IsHealthy ss a
    → IsHealthy ss (record a { store = s })
with_store-IsHealthy ss a s k h = record {
  tables = k;
  bus = h.bus;
  subscribed = h.subscribed;
  running = h.running;
}

module _ ⦃u : Uuid⦄ (ss : List Subscriber) where
  user_by_email-IsConsistent :
      (email : GoString) (s : Store)
      → IsConsistent s.tables
      → IsConsistent (user_by_email email s).1.tables
  unfolding user_by_email
  user_by_email-IsConsistent email s h =
      query_keeps IsConsistent _
        (Keeps-with_text IsConsistent _ _ (record { at = λ now t k. found-Holds _ t k })) s h

  user_by_id-IsConsistent :
      (id : GoString) (s : Store) → IsConsistent s.tables → IsConsistent (user_by_id id s).1.tables
  unfolding user_by_id
  user_by_id-IsConsistent id s h =
      query_keeps IsConsistent _
        (Keeps-with_uuid IsConsistent id _ (λ c. record { at = λ now t k. found-Holds _ t k })) s h

  open_session-IsHealthy :
      (user : User) (token : Option GoString) (r : Request) (w : Writer) (a : App)
      → IsHealthy ss a
      → IsHealthy ss (open_session user token r w a).1
  open_session-IsHealthy user none r w a h = h
  open_session-IsHealthy user (some token) r w a h = with_redis-IsHealthy ss a _ h

  verified-IsHealthy :
      (v : Option Bool) (user : User) (raw : Option (List ℕ)) (r : Request) (w : Writer) (a : App)
      → IsHealthy ss a
      → IsHealthy ss (verified v user raw r w a).1
  verified-IsHealthy none user raw r w a h = h
  verified-IsHealthy (some false) user raw r w a h = h
  verified-IsHealthy (some true) user raw r w a h =
      open_session-IsHealthy user (new_session_token raw) r w a h

  module _ (verify : GoString → GoString → Option Bool) where
    found_user-IsHealthy :
        (input : LoginRequest) (x : Result DbError User) (raw : Option (List ℕ)) (r : Request)
        (w : Writer) (a : App)
        → IsHealthy ss a
        → IsHealthy ss (found_user verify input x raw r w a).1
    found_user-IsHealthy input (err e) raw r w a h = h
    found_user-IsHealthy input (ok user) raw r w a h =
        verified-IsHealthy (verify input.password user.password_hash) user raw r w a h

    pub login-IsHealthy :
        (input : Option LoginRequest) (raw : Option (List ℕ)) (r : Request) (w : Writer) (a : App)
        → IsHealthy ss a
        → IsHealthy ss (login verify input raw r w a).1
    unfolding login
    login-IsHealthy none raw r w a h = h
    login-IsHealthy (some input) raw r w a h =
        let (x, store) = user_by_email input.email a.store in
        found_user-IsHealthy input x raw r w (record a { store = store })
          (with_store-IsHealthy ss a store (user_by_email-IsConsistent input.email a.store h.tables)
            h)

  closed-IsHealthy :
      (token : Option GoString) (a : App) → IsHealthy ss a → IsHealthy ss (closed token a)
  closed-IsHealthy none a h = h
  closed-IsHealthy (some token) a h = with_redis-IsHealthy ss a _ h

  pub logout-IsHealthy :
      (r : Request) (w : Writer) (a : App) → IsHealthy ss a → IsHealthy ss (logout r w a).1
  unfolding logout
  logout-IsHealthy r w a h = closed-IsHealthy _ a h

  by_id-IsHealthy :
      (x : Result RedisError GoString) (a : App) → IsHealthy ss a → IsHealthy ss (by_id x a).1
  by_id-IsHealthy (err e) a h = h
  by_id-IsHealthy (ok id) a h =
      with_store-IsHealthy ss a _ (user_by_id-IsConsistent id a.store h.tables) h

  by_cookie-IsHealthy :
      (token : Option GoString) (a : App) → IsHealthy ss a → IsHealthy ss (by_cookie token a).1
  unfolding is_empty
  by_cookie-IsHealthy none a h = h
  by_cookie-IsHealthy (some []) a h = h
  by_cookie-IsHealthy (some (c ∷ token)) a h = by_id-IsHealthy _ _ (with_redis-IsHealthy ss a _ h)

  pub current_user-IsHealthy :
      (r : Request) (a : App) → IsHealthy ss a → IsHealthy ss (current_user r a).1
  unfolding current_user
  current_user-IsHealthy r a h = by_cookie-IsHealthy _ a h

  pub session-IsHealthy :
      (r : Request) (w : Writer) (a : App) → IsHealthy ss a → IsHealthy ss (session r w a).1
  unfolding session
  session-IsHealthy r w a h = current_user-IsHealthy r a h
