-- ===== src/Http.antt =====
-- Requests and responses of package net/http, as far as the handlers read and write them.
use go_fibe.Base.{ℕ, Bool, Option, none, some, List, [], ◌∷◌, if◌then◌else◌}
use go_fibe.Strings.{GoString, str, ◌==◌}

pub record Request : Type 0 where
  pub method : GoString
  pub host : GoString
  pub path : GoString
  pub remote_addr : GoString
  -- r.TLS != nil
  pub tls : Bool
  -- r.Header.Get: the empty text for a header that is not there
  pub header : GoString → GoString
  -- r.Cookie
  pub cookie : GoString → Option GoString

pub data SameSite : Type 0 where
  lax strict no_restriction : SameSite

pub record Cookie : Type 0 where
  pub name : GoString
  pub value : GoString
  pub path : GoString
  pub http_only : Bool
  pub secure : Bool
  pub same_site : SameSite
  -- Seconds; `none` deletes the cookie (MaxAge < 0).
  pub max_age : Option ℕ
  pub partitioned : Bool

-- What a handler has written: no status before WriteHeader.
pub record Writer : Type 0 where
  pub header : GoString → GoString
  pub status : Option ℕ
  pub cookies : List Cookie

abbrev pub new_writer : Writer
new_writer = record { header = λ k. []; status = none; cookies = [] }

-- w.Header().Set
abbrev pub set_header : GoString → GoString → Writer → Writer
set_header k v w = record w { header = λ j. if j == k then v else w.header j }

-- w.WriteHeader: the first call counts.
abbrev pub first_status : ℕ → Option ℕ → Option ℕ
first_status code none = some code
first_status code (some s) = some s

abbrev pub write_header : ℕ → Writer → Writer
write_header code w = record w { status = first_status code w.status }

-- http.Error
abbrev pub http_error : ℕ → Writer → Writer
http_error code w = write_header code (
    set_header (str "X-Content-Type-Options") (str "nosniff")
      (set_header (str "Content-Type") (str "text/plain; charset=utf-8") w))

-- http.SetCookie
abbrev pub set_cookie : Cookie → Writer → Writer
set_cookie c w = record w { cookies = c ∷ w.cookies }

-- A handler over a state that it may change.
abbrev pub Handler : Type 0 → Type 0
Handler S = Request → Writer → S → Writer × S
