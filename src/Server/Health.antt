-- ===== src/Server/Health.antt =====
-- Requests keep the server of internal/server/server.go healthy.
use go_fibe.Base.{
  ℕ, ◌+◌, ◌≡◌, ◌∙◌, refl, ap, arith, inl, inr, Bool, true, false, ◌&&◌, List, [], ◌∷◌, map, all,
  ltb, leb,
}
use go_fibe.Http.{Request, Writer, new_writer}
use go_fibe.Event.{Subscriber, without, subscribe}
use go_fibe.Event.Invariant.{subscribe-IsSound}
use go_fibe.Db.Schema.{Uuid}
use go_fibe.Db.Keeps.{query_keeps}
use go_fibe.Db.Consistency.{IsConsistent}
use go_fibe.Ability.{Context}
use go_fibe.App.{App}
use go_fibe.App.Health.{IsHealthy}
use go_fibe.AppAuth.Health.{
  login-IsHealthy, logout-IsHealthy, session-IsHealthy, current_user-IsHealthy,
}
use go_fibe.Graph.Access.{Operation}
use go_fibe.Graph.Health.{execute-IsSafe}
use go_fibe.Server.Events.{subscriber_of, open_stream}
use go_fibe.Server.Pipeline.{pipeline_lem, AnsweredBy}
use go_fibe.Server.Routes.{
  Endpoint, up, readyz, metrics, events, login, logout, session, graphql, graphiql, Matched, found,
  missing, wrong_method, Inputs, serve_endpoint, serve_matched, router, with_stream, execute_all,
}
use go_fibe.Server
use go_fibe.Server.{Site, pipeline, graphql_context}

-- The tables are consistent, the bus is sound, and its subscribers are the open streams.
abbrev pub SiteIsHealthy : Site → Type 0
SiteIsHealthy s = IsHealthy (map subscriber_of s.streams) s.app

without_unused :
    (n a : ℕ) (ss : List Subscriber)
    → all (λ s. leb s.id n && ltb s.channel a) ss ≡ true
    → without (n + 1) ss ≡ ss
without_unused n a [] h = refl
without_unused n a (s ∷ ss) h = ground (arith, without_unused n a ss)

opened-IsHealthy :
    (flushes : Bool) (w : Writer) (s : Site)
    → SiteIsHealthy s
    → SiteIsHealthy (with_stream (open_stream flushes w s.app.events) s).1
unfolding open_stream subscribe
opened-IsHealthy false w s h = record {
  tables = h.tables;
  bus = h.bus;
  subscribed = h.subscribed;
  running = h.running;
}
opened-IsHealthy true w s h = record {
  tables = h.tables;
  bus = subscribe-IsSound s.app.events h.bus;
  subscribed =
      ap (λ ss. record { id = s.app.events.next_id + 1; channel = s.app.events.allocated } ∷ ss)
        (without_unused s.app.events.next_id s.app.events.allocated s.app.events.subscribers
            h.bus.numbered
          ∙ h.subscribed);
  running = h.running;
}

module _ ⦃u : Uuid⦄ where
  execute_all-IsHealthy :
      (ss : List Subscriber) (ops : List Operation) (ctx : Context) (a : App)
      → IsHealthy ss a
      → IsHealthy ss (execute_all ops ctx a)
  unfolding execute_all
  execute_all-IsHealthy ss [] ctx a h = h
  execute_all-IsHealthy ss (op ∷ ops) ctx a h =
      execute_all-IsHealthy ss ops ctx _ ((execute-IsSafe op ctx).at ss a h)

  endpoint-IsHealthy :
      (inputs : Inputs) (e : Endpoint) (r : Request) (w : Writer) (s : Site)
      → SiteIsHealthy s
      → SiteIsHealthy (serve_endpoint inputs e r w s).1
  unfolding Server.up Server.readyz Server.metrics graphql_context
  endpoint-IsHealthy inputs up r w s h = h
  endpoint-IsHealthy inputs readyz r w s h = record {
    tables = query_keeps IsConsistent _ (record { at = λ now t k. k }) s.app.store h.tables;
    bus = h.bus;
    subscribed = h.subscribed;
    running = h.running;
  }
  endpoint-IsHealthy inputs metrics r w s h = h
  endpoint-IsHealthy inputs events r w s h = opened-IsHealthy inputs.flushes w s h
  endpoint-IsHealthy inputs login r w s h =
      login-IsHealthy _ inputs.verify inputs.credentials inputs.random r w s.app h
  endpoint-IsHealthy inputs logout r w s h = logout-IsHealthy _ r w s.app h
  endpoint-IsHealthy inputs session r w s h = session-IsHealthy _ r w s.app h
  endpoint-IsHealthy inputs graphql r w s h =
      execute_all-IsHealthy _ inputs.operations _ _ (current_user-IsHealthy _ r s.app h)
  endpoint-IsHealthy inputs graphiql r w s h = h

  matched-IsHealthy :
      (inputs : Inputs) (m : Matched) (r : Request) (w : Writer) (s : Site)
      → SiteIsHealthy s
      → SiteIsHealthy (serve_matched inputs m r w s).1
  unfolding Server.api_not_found
  matched-IsHealthy inputs (found e) r w s h = endpoint-IsHealthy inputs e r w s h
  matched-IsHealthy inputs missing r w s h = h
  matched-IsHealthy inputs wrong_method r w s h = h

  answered-IsHealthy :
      (unix : ℕ) (inputs : Inputs) (r : Request) (s : Site) (x : Writer × Site)
      → SiteIsHealthy s
      → AnsweredBy unix (router inputs) r new_writer s x
      → SiteIsHealthy x.1
  unfolding router
  answered-IsHealthy unix inputs r s (w, t) h (inl away) =
      rw away.only_redis
        (record { tables = h.tables; bus = h.bus; subscribed = h.subscribed; running = h.running })
  answered-IsHealthy unix inputs r s (w, t) h (inr (admitted, (redis, e))) = rw (ap (λ x. x.1) e) (
      matched-IsHealthy inputs _ r _ _
        (record { tables = h.tables; bus = h.bus; subscribed = h.subscribed; running = h.running }))

  -- Any request, through all middlewares.
  pub request-IsHealthy :
      (unix : ℕ) (inputs : Inputs) (r : Request) (s : Site)
      → SiteIsHealthy s
      → SiteIsHealthy (pipeline unix (router inputs) r new_writer s).1
  request-IsHealthy unix inputs r s h =
      answered-IsHealthy unix inputs r s _ h (pipeline_lem unix (router inputs) r new_writer s refl)
