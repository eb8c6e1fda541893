-- ===== src/System/Health.antt =====
-- Whatever happens, and in whatever order, the system neither panics nor leaves its invariants.
use go_fibe.Base.{ℕ, ◌≡◌, ◌∙◌, refl, ap, Option, none, some, List, [], ◌∷◌, find, sym}
use go_fibe.Strings.{GoString}
use go_fibe.Event.{Bus, Subscriber, without, receive, publish}
use go_fibe.Event.Invariant.{IsSound, unsubscribe-IsSound}
use go_fibe.Event.Delivery.{publish_lem}
use go_fibe.Event.History.{receive-IsSound, receive_subscribers}
use go_fibe.Db.Schema.{Uuid}
use go_fibe.Db.History.{seed-IsConsistent}
use go_fibe.App.{App}
use go_fibe.App.Health.{IsHealthy}
use go_fibe.Jobs.Health.{handle_task-IsSafe, enqueue_due_monitor_checks-IsSafe}
use go_fibe.Server.{Site}
use go_fibe.Server.Events.{
  Stream, subscriber_of, Wakeup, gone, payload, quiet, stream_turn, received, ended, written,
  message_frame,
}
use go_fibe.Server.Health.{SiteIsHealthy, request-IsHealthy}
use go_fibe.System.{
  System, Event, requests, wakes, forwards, handles, ticks, seeds, is_stream, replace, with_events,
  turned, woken, forwarded, with_site, as_worker, by_worker, unless_panicked, step, run,
}
use go_fibe.System.Streams.{remove_subscribers, replace_subscribers, unsubscribed, found_id}

-- The tables are consistent, both buses are sound, and the subscribers of the server's bus are the
-- open event streams.
pub record IsCoherent (x : System) : Type 0 where
  pub site : SiteIsHealthy x.site
  pub worker_bus : IsSound x.worker_events

-- A site that goes on, and stays healthy.
abbrev Goes : Option Site → Type 0
Goes o = (s : Site) × (o ≡ some s) × SiteIsHealthy s

replaced-IsHealthy :
    (id : ℕ) (t t' : Stream) (b : Bus) (s : Site)
    → SiteIsHealthy s
    → find (is_stream id) s.streams ≡ some t
    → subscriber_of t' ≡ subscriber_of t
    → IsSound b
    → b.subscribers ≡ s.app.events.subscribers
    → SiteIsHealthy (record { app = with_events b s.app; streams = replace id t' s.streams })
replaced-IsHealthy id t t' b s h f e sound same = record {
  tables = h.tables;
  bus = sound;
  subscribed = same ∙ h.subscribed ∙ sym (replace_subscribers id t t' s.streams f e);
  running = h.running;
}

received_lem :
    (id : ℕ) (t : Stream) (s : Site) (x : Bus × Option GoString)
    → SiteIsHealthy s
    → find (is_stream id) s.streams ≡ some t
    → IsSound x.0
    → x.0.subscribers ≡ s.app.events.subscribers
    → Goes (turned id s (some (received t x)))
received_lem id t s (b, none) h f sound same =
    (_, refl, replaced-IsHealthy id t t b s h f refl sound same)
received_lem id t s (b, some p) h f sound same =
    (_, refl, replaced-IsHealthy id t (written (message_frame p) t) b s h f refl sound same)

turn-Goes :
    (id : ℕ) (k : Wakeup) (t : Stream) (s : Site)
    → SiteIsHealthy s
    → find (is_stream id) s.streams ≡ some t
    → Goes (turned id s (stream_turn k t s.app.events))
unfolding stream_turn
turn-Goes id gone t s h f =
    let (b, done, sound) = unsubscribe-IsSound t.id s.app.events h.bus in
    let same =
      unsubscribed t.id s.app.events b done
      ∙ ap (λ n. without n s.app.events.subscribers) (found_id id t s.streams f)
      ∙ ap (without id) h.subscribed
      ∙ sym (remove_subscribers id s.streams) in
    (
      _,
      ap (λ o. turned id s (ended o)) done,
      record { tables = h.tables; bus = sound; subscribed = same; running = h.running },
    )
turn-Goes id payload t s h f =
    received_lem id t s (receive t.channel s.app.events) h f
      (receive-IsSound t.channel s.app.events h.bus) (receive_subscribers t.channel s.app.events)
turn-Goes id quiet t s h f = (_, refl, replaced-IsHealthy id t _ s.app.events s h f refl h.bus refl)

woken-Goes :
    (id : ℕ) (k : Wakeup) (s : Site) (o : Option Stream)
    → SiteIsHealthy s
    → find (is_stream id) s.streams ≡ o
    → Goes (woken id k s o)
woken-Goes id k s none h f = (s, refl, h)
woken-Goes id k s (some t) h f = turn-Goes id k t s h f

forwarded-Goes :
    (p : GoString) (s : Site) → SiteIsHealthy s → Goes (forwarded s (publish p s.app.events))
forwarded-Goes p s h =
    let (b, done, sound, same, _) = publish_lem p s.app.events h.bus in
    (
      _,
      ap (forwarded s) done,
      record {
        tables = h.tables;
        bus = sound;
        subscribed = same ∙ h.subscribed;
        running = h.running;
      },
    )

-- A run that ends without a panic, in a coherent system.
abbrev pub Survives : Option System → Type 0
Survives o = (x : System) × (o ≡ some x) × IsCoherent x

with_site-Survives :
    (x : System) (o : Option Site) → IsCoherent x → Goes o → Survives (with_site x o)
with_site-Survives x o c (s, e, h) =
    (record x { site = s }, rw e refl, record { site = h; worker_bus = c.worker_bus })

as_worker-IsHealthy :
    (x : System) → IsCoherent x → IsHealthy x.worker_events.subscribers (as_worker x)
as_worker-IsHealthy x c = record {
  tables = c.site.tables;
  bus = c.worker_bus;
  subscribed = refl;
  running = c.site.running;
}

by_worker-IsCoherent :
    (x : System) (ss : List Subscriber) (a : App)
    → IsCoherent x
    → IsHealthy ss a
    → IsCoherent (by_worker x a)
by_worker-IsCoherent x ss a c h = record {
  site = record {
    tables = h.tables;
    bus = c.site.bus;
    subscribed = c.site.subscribed;
    running = h.running;
  };
  worker_bus = h.bus;
}

-- What leaves a coherent system has not panicked.
unless_panicked-Survives : (x : System) → IsCoherent x → Survives (unless_panicked x)
unless_panicked-Survives x c = (x, rw c.site.running refl, c)

module _ ⦃u : Uuid⦄ where
  step-Survives : (e : Event) (x : System) → IsCoherent x → Survives (step e x)
  unfolding step
  step-Survives (requests unix inputs r) x c =
      unless_panicked-Survives _
        (record { site = request-IsHealthy unix inputs r x.site c.site; worker_bus = c.worker_bus })
  step-Survives (wakes id k) x c = with_site-Survives x _ c (woken-Goes id k x.site _ c.site refl)
  step-Survives (forwards p) x c = with_site-Survives x _ c (forwarded-Goes p x.site c.site)
  step-Survives (handles hash t) x c = unless_panicked-Survives _ (
      by_worker-IsCoherent x _ _ c
        ((handle_task-IsSafe hash t).at _ (as_worker x) (as_worker-IsHealthy x c)))
  step-Survives ticks x c = unless_panicked-Survives _ (
      by_worker-IsCoherent x _ _ c
        (enqueue_due_monitor_checks-IsSafe.at _ (as_worker x) (as_worker-IsHealthy x c)))
  step-Survives (seeds hash) x c = unless_panicked-Survives _ (record {
    site = record {
      tables = seed-IsConsistent hash x.site.app.store c.site.tables;
      bus = c.site.bus;
      subscribed = c.site.subscribed;
      running = c.site.running;
    };
    worker_bus = c.worker_bus;
  })

  -- From a coherent system - consistent tables, sound buses, and as subscribers of the server's bus
  -- exactly its open event streams - no sequence of requests through the middlewares to any route,
  -- turns of the event streams, messages from Redis, tasks and ticks of the worker and seedings
  -- panics, and the system that it leaves is coherent again.
  pub run-Survives : (es : List Event) (x : System) → IsCoherent x → Survives (run es x)
  unfolding run
  run-Survives [] x c = (x, refl, c)
  run-Survives (e ∷ es) x c =
      let (y, done, d) = step-Survives e x c in
      let (z, rest, k) = run-Survives es y d in (z, rw done rest, k)
