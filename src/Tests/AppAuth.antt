-- ===== src/Tests/AppAuth.antt =====
-- Runs of the sessions.
use go_fibe.Base.{ℕ, ◌≡◌, refl, none, some, List, [], ◌∷◌, true, Bool, Option, arith}
use go_fibe.Strings.{GoString, str, ◌==◌}
use go_fibe.Strings.Base64.{raw_url_encode}
use go_fibe.Http.{Request, Writer, new_writer}
use go_fibe.Db.Users.{user_by_id}
use go_fibe.App.{App}
use go_fibe.Redis.{execute, pings}
use go_fibe.Tests.RedisServer.{serve-IsRedis}
use go_fibe.AppAuth.{LoginRequest, login, logout, current_user, current_user_of, as_current}
use go_fibe.AppAuth.Tokens.{new_session_token}
use go_fibe.AppAuth.Sessions.{LoggedIn, login_ok, current_user-login, current_user-logout}
use go_fibe.Tests.Fixtures.{plain_uuid}
use go_fibe.Tests.World.{app, request, admin}

abbrev credentials : LoginRequest
credentials = record { email = str " Admin@example.com"; password = str "password" }

abbrev verify : GoString → GoString → Option Bool
verify password hash = some true

abbrev answer : Writer
answer = (login verify (some credentials) (some (1 ∷ 2 ∷ [])) request new_writer app).0.1

abbrev logged_in : App
logged_in = (login verify (some credentials) (some (1 ∷ 2 ∷ [])) request new_writer app).1

login_ok_example :
    (bytes : List ℕ) × (some (1 ∷ 2 ∷ []) ≡ some bytes)
    × LoggedIn verify credentials bytes request new_writer answer app logged_in
        (current_user_of admin)
unfolding login go_fibe.Db.Users.user_by_email go_fibe.Db.Engine.query go_fibe.Strings.is_utf8
    go_fibe.Strings.to_lower go_fibe.Strings.trim_space go_fibe.Strings.is_space ◌==◌
    new_session_token go_fibe.Redis.set go_fibe.Redis.send
login_ok_example =
    login_ok verify credentials (some (1 ∷ 2 ∷ [])) request new_writer answer logged_in
      (current_user_of admin) app refl

session-LoggedIn :
    LoggedIn verify credentials
      (1 ∷ 2 ∷ [])
      request
      new_writer
      answer
      app
      logged_in
      (current_user_of admin)
unfolding login go_fibe.Db.Users.user_by_email go_fibe.Db.Engine.query go_fibe.Strings.is_utf8
    go_fibe.Strings.to_lower go_fibe.Strings.trim_space go_fibe.Strings.is_space ◌==◌
    new_session_token go_fibe.Redis.set go_fibe.Redis.send
session-LoggedIn = record {
  user = admin;
  known = refl;
  password_matches = refl;
  named = refl;
  same_config = refl;
  kept = refl;
  in_redis = refl;
  cookie_set = refl;
}

abbrev with_token : Request
with_token = record request { cookie = λ k. some (raw_url_encode (1 ∷ 2 ∷ [])) }

-- After the login, Redis was asked for something else.
abbrev asked_again : App
asked_again = record logged_in { redis = execute pings logged_in.redis }

current_user-login_example :
    (current_user with_token asked_again).0 ≡ as_current (user_by_id (3 ∷ []) asked_again.store).0
unfolding login go_fibe.Db.Users.user_by_email go_fibe.Db.Engine.query go_fibe.Strings.is_utf8
    go_fibe.Strings.to_lower go_fibe.Strings.trim_space go_fibe.Strings.is_space ◌==◌
    new_session_token go_fibe.Redis.set go_fibe.Redis.send
current_user-login_example =
    current_user-login verify credentials 1 (2 ∷ []) request with_token new_writer answer app
      logged_in asked_again (current_user_of admin) (record { at = 1000; op = pings } ∷ [])
      session-LoggedIn serve-IsRedis refl refl refl refl refl refl (omega arith)

current_user-logout_example :
    (current_user with_token (logout with_token new_writer logged_in).1).0 ≡ none
unfolding login go_fibe.Db.Users.user_by_email go_fibe.Db.Engine.query go_fibe.Strings.is_utf8
    go_fibe.Strings.to_lower go_fibe.Strings.trim_space go_fibe.Strings.is_space ◌==◌
    new_session_token go_fibe.Redis.set go_fibe.Redis.send logout go_fibe.Redis.del
current_user-logout_example =
    current_user-logout with_token with_token new_writer logged_in
      (logout with_token new_writer logged_in).1 [] serve-IsRedis (λ h. cc) refl refl refl
      (λ token h. refl) refl
