-- ===== src/Event.antt =====
-- internal/event/bus.go: a bus with one buffered channel for each subscriber. Channels live on a
-- heap, because the bus and the subscriber share them. Each operation holds the mutex throughout,
-- so it is one step. `none` is a run-time panic: a send on a closed channel, or a second close.
pub mod Invariant
pub mod Delivery
pub mod History
use go_fibe.Base.{
  ℕ, suc, ◌+◌, Bool, true, false, not, Option, none, some, List, [], ◌∷◌, ◌++◌, ltb, eqb, length,
  find, filter, if◌then◌else◌,
}
use go_fibe.Strings.{GoString}

pub record Channel : Type 0 where
  pub buffer : List GoString
  pub closed : Bool

abbrev pub capacity : ℕ
capacity = 16

-- make(chan string, 16)
abbrev pub make_channel : Channel
make_channel = record { buffer = []; closed = false }

abbrev pub Heap : Type 0
Heap = ℕ → Channel

abbrev pub put : Heap → ℕ → Channel → Heap
put h a c b = if eqb a b then c else h b

-- An entry of the map `subscribers`: the channel is an address.
pub record Subscriber : Type 0 where
  pub id : ℕ
  pub channel : ℕ

pub record Bus : Type 0 where
  pub next_id : ℕ
  pub subscribers : List Subscriber
  pub heap : Heap
  pub allocated : ℕ

unfoldable pub new_bus : Bus
new_bus = record { next_id = 0; subscribers = []; heap = λ a. make_channel; allocated = 0 }

abbrev pub id_is : ℕ → Subscriber → Bool
id_is id s = eqb s.id id

abbrev pub without : ℕ → List Subscriber → List Subscriber
without id ss = filter (λ s. not (id_is id s)) ss

-- The bus, the subscriber's number and the address of its channel. Numbers do not wrap.
unfoldable pub subscribe : Bus → Bus × ℕ × ℕ
subscribe b =
    let id = b.next_id + 1 in
    (
      record b {
        next_id = id;
        subscribers = record { id = id; channel = b.allocated } ∷ without id b.subscribers;
        heap = put b.heap b.allocated make_channel;
        allocated = suc b.allocated;
      },
      id,
      b.allocated,
    )

-- close(ch)
abbrev pub close : ℕ → Heap → Option Heap
close a h = if (h a).closed then none else some (put h a (record (h a) { closed = true }))

abbrev pub with_heap : Bus → Option Heap → Option Bus
with_heap b none = none
with_heap b (some h) = some (record b { heap = h })

abbrev pub drop_subscriber : ℕ → Bus → Option Subscriber → Option Bus
drop_subscriber id b none = some b
drop_subscriber id b (some s) =
    with_heap (record b { subscribers = without id b.subscribers }) (close s.channel b.heap)

unfoldable pub unsubscribe : ℕ → Bus → Option Bus
unsubscribe id b = drop_subscriber id b (find (id_is id) b.subscribers)

-- `case ch <- payload:` where the buffer has room, `default:` where it is full
abbrev pub offer : GoString → Channel → Channel
offer payload c =
    if ltb (length c.buffer) capacity then record c { buffer = c.buffer ++ payload ∷ [] } else c

unfoldable pub send : GoString → ℕ → Heap → Option Heap
send payload a h = if (h a).closed then none else some (put h a (offer payload (h a)))

-- The loop of Publish; Go leaves the order of a map's entries open.
unfoldable pub publish_to : GoString → List Subscriber → Heap → Option Heap
publish_to payload [] h = some h
publish_to payload (s ∷ ss) h = elim (send payload s.channel h) [
  | none ↦ none
  | some h' ↦ publish_to payload ss h'
]

unfoldable pub publish : GoString → Bus → Option Bus
unfolding publish_to
publish payload b = with_heap b (publish_to payload b.subscribers b.heap)

-- `<-ch` by the subscriber, when the buffer holds something
unfoldable pub receive : ℕ → Bus → Bus × Option GoString
receive a b = elim ((b.heap a).buffer) [
  | [] ↦ (b, none)
  | payload ∷ rest ↦
      (record b { heap = put b.heap a (record (b.heap a) { buffer = rest }) }, some payload)
]

-- What happens to the goroutine of ForwardRedis.
pub data Signal : Type 0 where
  -- <-ctx.Done()
  done : Signal
  message : GoString → Signal
  -- The pub/sub channel was closed; the read loop ends.
  disconnected : Signal
  -- The second before the next attempt has passed.
  elapsed : Signal

abbrev pub then_forward : Option Bus → (Bus → Option Bus) → Option Bus
then_forward none k = none
then_forward (some b) k = k b

-- ForwardRedis: `true` inside the read loop, `false` in the wait behind it. A signal that the
-- current select does not listen to is left out.
unfoldable pub forward_redis : Bool → List Signal → Bus → Option Bus
unfolding publish
forward_redis reading [] b = some b
forward_redis reading (done ∷ rest) b = some b
forward_redis true (message payload ∷ rest) b =
    let next = forward_redis true rest in then_forward (publish payload b) next
forward_redis true (disconnected ∷ rest) b = forward_redis false rest b
forward_redis true (elapsed ∷ rest) b = forward_redis true rest b
forward_redis false (message payload ∷ rest) b = forward_redis false rest b
forward_redis false (disconnected ∷ rest) b = forward_redis false rest b
forward_redis false (elapsed ∷ rest) b = forward_redis true rest b
