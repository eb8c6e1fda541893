-- ===== src/Tests/Event.antt =====
-- Runs of the bus.
use go_fibe.Base.{◌≡◌, List, [], ◌∷◌, some, any, if◌then◌else◌, ℕ, true}
use go_fibe.Strings.{str}
use go_fibe.Event.{
  Bus, new_bus, subscribe, publish, offer, message, disconnected, elapsed, done, forward_redis,
}
use go_fibe.Event.Invariant.{IsSound, new_bus-IsSound, subscribe-IsSound}
use go_fibe.Event.Delivery.{publish_lem, reaches}
use go_fibe.Event.History.{
  Use, subscribes, unsubscribes, publishes, receives, use_all, use_all_total, Survives,
  forward_redis-Survives,
}

abbrev uses : List Use
uses =
    subscribes
    ∷ publishes (str "a")
    ∷ subscribes
    ∷ publishes (str "b")
    ∷ receives 0
    ∷ unsubscribes 1
    ∷ unsubscribes 1
    ∷ publishes (str "c")
    ∷ []

use_all_total_example : Survives (use_all uses new_bus)
use_all_total_example = use_all_total uses

abbrev two_subscribers : Bus
two_subscribers = (subscribe (subscribe new_bus).0).0

two_subscribers-IsSound : IsSound two_subscribers
two_subscribers-IsSound = subscribe-IsSound _ (subscribe-IsSound _ new_bus-IsSound)

publish_lem_example :
    (b' : Bus) × (publish (str "a") two_subscribers ≡ some b')
    × IsSound b'
    × (b'.subscribers ≡ two_subscribers.subscribers)
    × ((a : ℕ)
        → b'.heap a ≡ (
            if any (reaches a) two_subscribers.subscribers
            then offer (str "a") (two_subscribers.heap a)
            else two_subscribers.heap a))
publish_lem_example = publish_lem (str "a") two_subscribers two_subscribers-IsSound

forward_redis-Survives_example : Survives (
    forward_redis true
      (message (str "a") ∷ disconnected ∷ elapsed ∷ message (str "b") ∷ done ∷ [])
      two_subscribers)
forward_redis-Survives_example =
    forward_redis-Survives true _ two_subscribers two_subscribers-IsSound
