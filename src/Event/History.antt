-- ===== src/Event/History.antt =====
-- Any sequence of uses of the bus, and the bridge from Redis.
use go_fibe.Base.{ℕ, ◌≡◌, ◌∙◌, ap, refl, Bool, true, false, Option, some, List, [], ◌∷◌, arith}
use go_fibe.Strings.{GoString}
use go_fibe.Event.{
  Bus, new_bus, subscribe, unsubscribe, publish, receive, Signal, done, message, disconnected,
  elapsed, forward_redis, then_forward,
}
use go_fibe.Event.Invariant.{IsSound, new_bus-IsSound, subscribe-IsSound, unsubscribe-IsSound}
use go_fibe.Event.Delivery.{publish_lem, open-put}

-- What the goroutines do with the bus, one at a time under its mutex.
pub data Use : Type 0 where
  subscribes : Use
  unsubscribes : ℕ → Use
  publishes : GoString → Use
  receives : ℕ → Use

pub use_bus : Use → Bus → Option Bus
use_bus subscribes b = some (subscribe b).0
use_bus (unsubscribes id) b = unsubscribe id b
use_bus (publishes payload) b = publish payload b
use_bus (receives a) b = some (receive a b).0

pub use_all : List Use → Bus → Option Bus
use_all [] b = some b
use_all (x ∷ xs) b = let next = use_all xs in then_forward (use_bus x b) next

-- A run that ends without a panic, in a sound bus.
abbrev pub Survives : Option Bus → Type 0
Survives o = (b : Bus) × (o ≡ some b) × IsSound b

pub receive-IsSound : (a : ℕ) (b : Bus) → IsSound b → IsSound (receive a b).0
unfolding receive
receive-IsSound a b v = split ((b.heap a).buffer) refl
  where
    split : (l : List GoString) → (b.heap a).buffer ≡ l → IsSound (receive a b).0
    split [] e = rw (e, receive) v
    split (payload ∷ rest) e =
        rw (e, receive)
          (record {
            numbered = v.numbered;
            separate = v.separate;
            all_open = open-put b.heap a _ b.subscribers refl v.all_open;
            bounded = λ c. ground (arith, v.bounded c, v.bounded a);
          })

pub receive_subscribers : (a : ℕ) (b : Bus) → (receive a b).0.subscribers ≡ b.subscribers
unfolding receive
receive_subscribers a b = ground arith

use_bus-Survives : (x : Use) (b : Bus) → IsSound b → Survives (use_bus x b)
unfolding use_bus
use_bus-Survives subscribes b v = ((subscribe b).0, refl, subscribe-IsSound b v)
use_bus-Survives (unsubscribes id) b v = unsubscribe-IsSound id b v
use_bus-Survives (publishes payload) b v =
    let (b', e, w, _, _) = publish_lem payload b v in (b', e, w)
use_bus-Survives (receives a) b v = ((receive a b).0, refl, receive-IsSound a b v)

Survives-then :
    (o : Option Bus) (k : Bus → Option Bus)
    → Survives o
    → ((b : Bus) → IsSound b → Survives (k b))
    → Survives (then_forward o k)
Survives-then o k (b, e, v) h = let (c, e', w) = h b v in (c, ap (λ x. then_forward x k) e ∙ e', w)

use_all-Survives : (xs : List Use) (b : Bus) → IsSound b → Survives (use_all xs b)
unfolding use_all
use_all-Survives [] b v = (b, refl, v)
use_all-Survives (x ∷ xs) b v =
    Survives-then (use_bus x b) (use_all xs) (use_bus-Survives x b v) (use_all-Survives xs)

-- From a new bus no sequence of subscriptions, cancellations (of any number, also twice),
-- publications and receptions panics, and the bus that it leaves is sound: subscribers have numbers
-- and open channels of their own, and no channel holds more than sixteen payloads.
pub use_all_total : (xs : List Use) → Survives (use_all xs new_bus)
use_all_total xs = use_all-Survives xs new_bus new_bus-IsSound

-- On a sound bus ForwardRedis neither panics nor leaves an unsound bus, whatever Redis sends and
-- whenever it disconnects.
pub forward_redis-Survives :
    (reading : Bool) (signals : List Signal) (b : Bus)
    → IsSound b
    → Survives (forward_redis reading signals b)
unfolding forward_redis
forward_redis-Survives true [] b v = (b, refl, v)
forward_redis-Survives false [] b v = (b, refl, v)
forward_redis-Survives true (done ∷ rest) b v = (b, refl, v)
forward_redis-Survives false (done ∷ rest) b v = (b, refl, v)
forward_redis-Survives true (message payload ∷ rest) b v =
    let (b', e, w, _, _) = publish_lem payload b v in
    Survives-then (publish payload b) (forward_redis true rest) (b', e, w)
      (forward_redis-Survives true rest)
forward_redis-Survives true (disconnected ∷ rest) b v = forward_redis-Survives false rest b v
forward_redis-Survives true (elapsed ∷ rest) b v = forward_redis-Survives true rest b v
forward_redis-Survives false (message payload ∷ rest) b v = forward_redis-Survives false rest b v
forward_redis-Survives false (disconnected ∷ rest) b v = forward_redis-Survives false rest b v
forward_redis-Survives false (elapsed ∷ rest) b v = forward_redis-Survives true rest b v
