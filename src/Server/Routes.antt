-- ===== src/Server/Routes.antt =====
-- The routes of Serve in internal/server/server.go, and what is behind them.
use go_fibe.Base.{ℕ, Bool, Option, none, some, List, [], ◌∷◌, if◌then◌else◌}
use go_fibe.Strings.{GoString, str}
use go_fibe.Config.{Config, is_development}
use go_fibe.Http.{Request, Writer, Handler}
use go_fibe.Event.{Bus}
use go_fibe.Db.Schema.{Uuid}
use go_fibe.Ability.{Context}
use go_fibe.App.{App}
use go_fibe.AppAuth
use go_fibe.AppAuth.{LoginRequest, Body}
use go_fibe.Graph.Access.{Operation, execute}
use go_fibe.Server.Events.{Stream, open_stream}
use go_fibe.Server
use go_fibe.Server.{Site, with_app, api_not_found, graphql_context}

pub data Endpoint : Type 0 where
  up readyz metrics events login logout session graphql graphiql : Endpoint

-- `none` for router.Handle, which takes every method.
pub record Route : Type 0 where
  pub method : Option GoString
  pub pattern : GoString
  pub endpoint : Endpoint

abbrev on : GoString → GoString → Endpoint → Route
on method pattern e = record { method = some method; pattern = pattern; endpoint = e }

abbrev always : GoString → Endpoint → Route
always pattern e = record { method = none; pattern = pattern; endpoint = e }

unfoldable pub routes : Config → List Route
routes cfg =
    on (str "GET") (str "/up") up
    ∷ on (str "GET") (str "/readyz") readyz
    ∷ on (str "GET") (str "/metrics") metrics
    ∷ on (str "GET") (str "/api/events") events
    ∷ on (str "POST") (str "/auth/login") login
    ∷ on (str "POST") (str "/auth/logout") logout
    ∷ on (str "GET") (str "/auth/session") session
    ∷ always (str "/graphql") graphql
    ∷ (if is_development cfg then always (str "/graphiql") graphiql ∷ [] else [])

-- What chi finds for a request.
pub data Matched : Type 0 where
  found : Endpoint → Matched
  missing wrong_method : Matched

-- What lies outside: chi, gqlgen, argon2id, and what the request brings along.
pub record Inputs : Type 0 where
  pub match_route : List Route → Request → Matched
  pub not_allowed : Writer → Writer
  pub verify : GoString → GoString → Option Bool
  -- What the body decodes to for Login, and the outcome of its rand.Read.
  pub credentials : Option LoginRequest
  pub random : Option (List ℕ)
  -- The fields that gqlgen calls for the document, and how it answers.
  pub operations : List Operation
  pub answer : Writer → Writer
  pub playground : Writer → Writer
  pub flushes : Bool

abbrev pub with_stream : Writer × (Bus × Option Stream) → Site → Writer × Site
with_stream (w, (b, none)) s = (w, with_app (record s.app { events = b }) s)
with_stream (w, (b, some t)) s =
    (w, record { app = record s.app { events = b }; streams = t ∷ s.streams })

abbrev without_body : Site → (Body × Writer) × App → Writer × Site
without_body s ((body, w), a) = (w, with_app a s)

module _ ⦃u : Uuid⦄ where
  unfoldable pub execute_all : List Operation → Context → App → App
  execute_all [] ctx a = a
  execute_all (op ∷ ops) ctx a = execute_all ops ctx (execute op ctx a).1

  abbrev graphql_app : List Operation → Context × App → App
  graphql_app ops (ctx, a) = execute_all ops ctx a

  abbrev pub serve_endpoint : Inputs → Endpoint → Handler Site
  serve_endpoint inputs up r w s = Server.up r w s
  serve_endpoint inputs readyz r w s = let (w', a) = Server.readyz r w s.app in (w', with_app a s)
  serve_endpoint inputs metrics r w s = Server.metrics r w s
  serve_endpoint inputs events r w s = with_stream (open_stream inputs.flushes w s.app.events) s
  serve_endpoint inputs login r w s =
      without_body s (AppAuth.login inputs.verify inputs.credentials inputs.random r w s.app)
  serve_endpoint inputs logout r w s = without_body s (AppAuth.logout r w s.app)
  serve_endpoint inputs session r w s = without_body s (AppAuth.session r w s.app)
  serve_endpoint inputs graphql r w s =
      (inputs.answer w, with_app (graphql_app inputs.operations (graphql_context r s.app)) s)
  serve_endpoint inputs graphiql r w s = (inputs.playground w, s)

  abbrev pub serve_matched : Inputs → Matched → Handler Site
  serve_matched inputs (found e) r w s = serve_endpoint inputs e r w s
  serve_matched inputs missing r w s = api_not_found r w s
  serve_matched inputs wrong_method r w s = (inputs.not_allowed w, s)

  unfoldable pub router : Inputs → Handler Site
  router inputs r w s = serve_matched inputs (inputs.match_route (routes s.app.config) r) r w s
