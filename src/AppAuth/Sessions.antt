-- ===== src/AppAuth/Sessions.antt =====
-- How long a session of internal/appauth/auth.go lasts.
use go_fibe.Base.{
  ℕ, ◌+◌, ◌<◌, ◌++◌, ◌≡◌, ◌≢◌, ◌∙◌, refl, ap, sym, arith, Bool, true, false, Option, none, some,
  List, [], ◌∷◌,
}
use go_fibe.Base.Exec.{Result, ok, err}
use go_fibe.Strings.{GoString, is_empty}
use go_fibe.Strings.Base64.{raw_url_encode}
use go_fibe.Models.{User, CurrentUser}
use go_fibe.Http.{Request, Writer}
use go_fibe.Redis
use go_fibe.Redis.{Redis, RedisError, Log}
use go_fibe.Redis.Entries.{get-set, get-del, executed}
use go_fibe.Redis.Laws.{IsRedis, is_written}
use go_fibe.Strings.Equality.{eq_refl}
use go_fibe.Db.Schema.{Uuid, DbError}
use go_fibe.Db.Engine.{answered, refused}
use go_fibe.Db.Users.{user_by_email, user_by_id}
use go_fibe.App.{App}
use go_fibe.AppAuth.{
  LoginRequest, session_response, login, logout, current_user, current_user_of, session_cookie,
  session_cookie_value, session_ttl, as_current, open_session, verified, found_user, by_id,
  by_cookie, closed,
}
use go_fibe.AppAuth.Tokens.{session_key, new_session_token}

module _ ⦃u : Uuid⦄ where
  -- What a login that lets somebody in has done.
  pub record LoggedIn (verify : GoString → GoString → Option Bool) (input : LoginRequest)
      (raw : List ℕ) (r : Request) (w w' : Writer) (a b : App) (who : CurrentUser) : Type 0 where
    pub user : User
    pub known : (user_by_email input.email a.store).0 ≡ ok user
    pub password_matches : verify input.password user.password_hash ≡ some true
    pub named : who ≡ current_user_of user
    pub same_config : b.config ≡ a.config
    pub kept :
        (Redis.set (session_key a.config.secret (raw_url_encode raw)) user.id session_ttl a.redis).0
        ≡ ok tt
    pub in_redis :
        b.redis
        ≡ (Redis.set
            (session_key a.config.secret (raw_url_encode raw))
            user.id
            session_ttl
            a.redis).1
    pub cookie_set : w'.cookies ≡ session_cookie_value a.config r (raw_url_encode raw) ∷ w.cookies

  opened :
      (user : User) (raw : Option (List ℕ)) (r : Request) (w w' : Writer) (a b : App)
      (who : CurrentUser)
      → open_session user (new_session_token raw) r w a ≡ ((session_response (some who), w'), b)
      → (bytes : List ℕ) × (raw ≡ some bytes)
        × (who ≡ current_user_of user)
        × (b.config ≡ a.config)
        × ((Redis.set
              (session_key a.config.secret (raw_url_encode bytes))
              user.id
              session_ttl
              a.redis).0
            ≡ ok tt)
        × (b.redis
            ≡ (Redis.set
                (session_key a.config.secret (raw_url_encode bytes))
                user.id
                session_ttl
                a.redis).1)
        × (w'.cookies ≡ session_cookie_value a.config r (raw_url_encode bytes) ∷ w.cookies)
  unfolding new_session_token
  opened user none r w w' a b who h = ground arith
  opened user (some bytes) r w w' a b who h =
      (bytes, refl, ground arith, ground arith, ground arith, ground arith, ground arith)

  module _ (verify : GoString → GoString → Option Bool) (input : LoginRequest)
      (raw : Option (List ℕ)) (r : Request) (w w' : Writer) (b : App) (who : CurrentUser) where
    verified_ok :
        (user : User) (a : App) (x : Option Bool)
        → verified x user raw r w a ≡ ((session_response (some who), w'), b)
        → (x ≡ some true)
          × (open_session user (new_session_token raw) r w a
              ≡ ((session_response (some who), w'), b))
    verified_ok user a none h = ground arith
    verified_ok user a (some false) h = ground arith
    verified_ok user a (some true) h = (refl, h)

    found_user_ok :
        (a : App) (x : Result DbError User)
        → found_user verify input x raw r w a ≡ ((session_response (some who), w'), b)
        → (user : User) × (x ≡ ok user)
          × (verified (verify input.password user.password_hash) user raw r w a
              ≡ ((session_response (some who), w'), b))
    found_user_ok a (err e) h = ground arith
    found_user_ok a (ok user) h = (user, refl, h)

    -- Login answers with a user only if the address is that of a stored user and the password
    -- passes against that user's hash; it has then stored that user's identifier under the new
    -- token and set the cookie with the token.
    pub login_ok :
        (a : App)
        → login verify (some input) raw r w a ≡ ((session_response (some who), w'), b)
        → (bytes : List ℕ) × (raw ≡ some bytes) × LoggedIn verify input bytes r w w' a b who
    unfolding login
    login_ok a h =
        let (x, store) = user_by_email input.email a.store in
        let a' = record a { store = store } in
        let (user, known, h1) = found_user_ok a' x h in
        let (matches, h2) = verified_ok user a' (verify input.password user.password_hash) h1 in
        let (bytes, read, named, same, kept, in_redis, cookie_set) =
          opened user raw r w w' a' b who h2 in
        (
          bytes,
          read,
          record {
            user = user;
            known = known;
            password_matches = matches;
            named = named;
            same_config = same;
            kept = kept;
            in_redis = in_redis;
            cookie_set = cookie_set;
          },
        )

  encoded_filled : (byte : ℕ) (bytes : List ℕ) → is_empty (raw_url_encode (byte ∷ bytes)) ≡ false
  unfolding raw_url_encode is_empty
  encoded_filled byte [] = refl
  encoded_filled byte (b ∷ []) = refl
  encoded_filled byte (b ∷ c ∷ bytes) = refl

  by_id_ok :
      (x : Result RedisError GoString) (id : GoString) (a : App)
      → x ≡ ok id
      → (by_id x a).0 ≡ as_current (user_by_id id a.store).0
  by_id_ok (ok i) id a e = ap (λ j. as_current (user_by_id j a.store).0) (ground (arith, e))
  by_id_ok (err x) id a e = cc

  by_id-none :
      (x : Result RedisError GoString) (a : App)
      → ((id : GoString) → x ≢ ok id)
      → (by_id x a).0 ≡ none
  by_id-none (ok i) a n = elim (n i refl) [ ]
  by_id-none (err x) a n = refl

  -- After a login and before its time to live is over, with Redis answering and whatever other
  -- commands it has executed meanwhile on other keys, CurrentUser on a request with the token of
  -- the login reads the user whose identifier the login returned.
  pub current_user-login :
      (verify : GoString → GoString → Option Bool) (input : LoginRequest) (byte : ℕ)
      (bytes : List ℕ) (r r' : Request) (w w' : Writer) (a b c : App) (who : CurrentUser)
      (between : Log)
      → LoggedIn verify input (byte ∷ bytes) r w w' a b who
      → IsRedis a.redis.serve
      → c.config ≡ b.config
      → c.redis.serve ≡ a.redis.serve
      → c.redis.log ≡ between ++ b.redis.log
      → is_written (session_key a.config.secret (raw_url_encode (byte ∷ bytes))) between ≡ false
      → r'.cookie session_cookie ≡ some (raw_url_encode (byte ∷ bytes))
      → c.redis.fate c.redis.calls ≡ answered
      → c.redis.clock c.redis.calls < a.redis.clock a.redis.calls + session_ttl
      → (current_user r' c).0 ≡ as_current (user_by_id who.id c.store).0
  unfolding current_user
  current_user-login verify input byte bytes r r' w w' a b c who between l v config serve log h
        token f t =
      let key = session_key a.config.secret (raw_url_encode (byte ∷ bytes)) in
      let log' = log ∙ ap (λ (x : Redis). between ++ x.log) l.in_redis in
      let got =
        get-set a.redis c.redis between key v serve h l.user.id session_ttl l.kept log' f t in
      rw (token, encoded_filled byte bytes, config, l.same_config)
        (by_id_ok _ l.user.id _ got
          ∙ ap (λ id. as_current (user_by_id id c.store).0)
              (ap (λ (x : CurrentUser). x.id) (sym l.named)))

  forgotten :
      (o : Option GoString) (a b : App) (between : Log)
      → IsRedis a.redis.serve
      → a.redis.fate a.redis.calls ≢ refused
      → b.config ≡ a.config
      → b.redis.serve ≡ a.redis.serve
      → b.redis.log ≡ between ++ (closed o a).redis.log
      → ((token : GoString)
          → o ≡ some token
          → is_written (session_key a.config.secret token) between ≡ false)
      → (by_cookie o b).0 ≡ none
  unfolding is_empty
  forgotten none a b between v f config serve log h = refl
  forgotten (some []) a b between v f config serve log h = refl
  forgotten (some (c ∷ s)) a b between v f config serve log h =
      let token = c ∷ s in
      let k = session_key a.config.secret token in
      rw config (
        by_id-none _ _ (λ id.
          get-del a.redis b.redis between k v serve (h token refl) (k ∷ []) id
            (ground (arith, eq_refl k)) (executed (k ∷ []) a.redis f) log))

  -- After a logout whose command reached Redis, and whatever other commands Redis has executed
  -- since on other keys, the session cookie that it was sent names nobody.
  pub current_user-logout :
      (r r' : Request) (w : Writer) (a b : App) (between : Log)
      → IsRedis a.redis.serve
      → a.redis.fate a.redis.calls ≢ refused
      → b.config ≡ a.config
      → b.redis.serve ≡ a.redis.serve
      → b.redis.log ≡ between ++ (logout r w a).1.redis.log
      → ((token : GoString)
          → r.cookie session_cookie ≡ some token
          → is_written (session_key a.config.secret token) between ≡ false)
      → r'.cookie session_cookie ≡ r.cookie session_cookie
      → (current_user r' b).0 ≡ none
  unfolding current_user logout
  current_user-logout r r' w a b between v f config serve log h c =
      rw c (forgotten (r.cookie session_cookie) a b between v f config serve log h)
