-- ===== src/Server/Ordering.antt =====
-- What a client of the event stream of internal/server/server.go gets to see.
use go_fibe.Base.{
  ◌≡◌, ◌∙◌, refl, ap, sym, arith, true, Option, none, some, List, [], ◌∷◌, ◌++◌, map, any, ltb,
  length, if◌then◌else◌, inl, inr, Bool-cases,
}
use go_fibe.Strings.{GoString}
use go_fibe.Http.{Writer}
use go_fibe.Event.{Bus, Channel, capacity, publish, offer, receive, subscribe}
use go_fibe.Event.Invariant.{IsSound, subscribe-IsSound}
use go_fibe.Event.Delivery.{publish_lem, reaches}
use go_fibe.Event.History.{receive-IsSound}
use go_fibe.Server.Events.{
  Stream, stream_turn, payload, quiet, written, received, message_frame, open_stream,
}
use mathlib.Core.List.{append_assoc}
use go_fibe.Server.Frames.{
  messages, map-append, messages-written, messages-keepalive, receive-none, taken_from,
  receive-some, buffer-taken_from,
}

-- What happens to a stream and its bus, one at a time.
pub data Happening : Type 0 where
  publishes : GoString → Happening
  -- The loop takes a payload, or waits for 25 seconds.
  reads waits : Happening

-- A stream, its bus, and the payloads that were published while fewer than sixteen waited.
pub record Watched : Type 0 where
  pub stream : Stream
  pub bus : Bus
  pub taken : List GoString

abbrev pub waiting : Watched → List GoString
waiting x = (x.bus.heap x.stream.channel).buffer

abbrev pub taken_with : GoString → Watched → List GoString
taken_with p x = if ltb (length (waiting x)) capacity then x.taken ++ p ∷ [] else x.taken

abbrev with_bus : Watched → List GoString → Option Bus → Option Watched
with_bus x taken none = none
with_bus x taken (some b) = some (record x { bus = b; taken = taken })

abbrev after_turn : Watched → Option (Bus × Option Stream) → Option Watched
after_turn x none = none
after_turn x (some (b, none)) = none
after_turn x (some (b, some t)) = some (record x { stream = t; bus = b })

pub happens : Happening → Watched → Option Watched
happens (publishes p) x = with_bus x (taken_with p x) (publish p x.bus)
happens reads x = after_turn x (stream_turn payload x.stream x.bus)
happens waits x = after_turn x (stream_turn quiet x.stream x.bus)

abbrev then_all : Option Watched → (Watched → Option Watched) → Option Watched
then_all none k = none
then_all (some x) k = k x

pub all_happen : List Happening → Watched → Option Watched
unfolding happens
all_happen [] x = some x
all_happen (h ∷ hs) x = let rest = all_happen hs in then_all (happens h x) rest

-- The client has what was taken, in this order, but for what still waits.
pub record IsInOrder (x : Watched) : Type 0 where
  pub sound : IsSound x.bus
  pub subscribed : any (reaches x.stream.channel) x.bus.subscribers ≡ true
  pub in_order : messages x.stream ++ map message_frame (waiting x) ≡ map message_frame x.taken

abbrev pub Goes : Option Watched → Type 0
Goes o = (x : Watched) × (o ≡ some x) × IsInOrder x

offered :
    (p : GoString) (c : Channel) (seen taken : List GoString)
    → seen ++ map message_frame c.buffer ≡ map message_frame taken
    → seen ++ map message_frame (offer p c).buffer
      ≡ map message_frame (if ltb (length c.buffer) capacity then taken ++ p ∷ [] else taken)
offered p c seen taken h = elim (Bool-cases (ltb (length c.buffer) capacity)) [
  | inl room ↦ rw room (
      ap (λ l. seen ++ l) (map-append c.buffer (p ∷ []))
      ∙ sym (append_assoc seen (map message_frame c.buffer) (message_frame p ∷ []))
      ∙ ap (λ l. l ++ message_frame p ∷ []) h
      ∙ sym (map-append taken (p ∷ [])))
  | inr full ↦ rw full h
]

publishes-Goes :
    (p : GoString) (x : Watched)
    → IsInOrder x
    → Goes (with_bus x (taken_with p x) (publish p x.bus))
publishes-Goes p x v =
    let (b, done, sound, same, at) = publish_lem p x.bus v.sound in
    let a = x.stream.channel in
    let now : b.heap a ≡ offer p (x.bus.heap a) = at a ∙ rw v.subscribed refl in
    (
      _,
      ap (with_bus x (taken_with p x)) done,
      record {
        sound = sound;
        subscribed = ap (any (reaches a)) same ∙ v.subscribed;
        in_order =
            ap (λ (c : Channel). messages x.stream ++ map message_frame c.buffer) now
            ∙ offered p (x.bus.heap a) (messages x.stream) x.taken v.in_order;
      },
    )

abbrev turn_with : Watched → Bus × Option GoString → Option Watched
turn_with x r = after_turn x (some (received x.stream r))

read-Goes :
    (x : Watched) (l : List GoString)
    → IsInOrder x
    → waiting x ≡ l
    → Goes (turn_with x (receive x.stream.channel x.bus))
read-Goes x [] v e = (x, ap (turn_with x) (receive-none x.stream.channel x.bus e), v)
read-Goes x (p ∷ rest) v e =
    let a = x.stream.channel in
    let taken = receive-some a x.bus p rest e in
    let sound : IsSound (taken_from a x.bus rest) = rw taken at (receive-IsSound a x.bus v.sound) in
    (
      record x { stream = written (message_frame p) x.stream; bus = taken_from a x.bus rest },
      ap (turn_with x) taken,
      record {
        sound = sound;
        subscribed = v.subscribed;
        in_order =
            ap (λ l. l ++ map message_frame ((taken_from a x.bus rest).heap a).buffer)
              (messages-written p x.stream)
            ∙ ap (λ l. (messages x.stream ++ message_frame p ∷ []) ++ map message_frame l)
                (buffer-taken_from a x.bus rest)
            ∙ append_assoc (messages x.stream) (message_frame p ∷ []) (map message_frame rest)
            ∙ ap (λ l. messages x.stream ++ map message_frame l) (sym e)
            ∙ v.in_order;
      },
    )

happens-Goes : (h : Happening) (x : Watched) → IsInOrder x → Goes (happens h x)
unfolding happens stream_turn
happens-Goes (publishes p) x v = publishes-Goes p x v
happens-Goes reads x v = read-Goes x _ v refl
happens-Goes waits x v = (
  _,
  refl,
  record {
    sound = v.sound;
    subscribed = v.subscribed;
    in_order =
        ap (λ l. l ++ map message_frame (waiting x)) (messages-keepalive x.stream) ∙ v.in_order;
  },
)

-- A stream that goes on in order.
pub all_happen-Goes : (hs : List Happening) (x : Watched) → IsInOrder x → Goes (all_happen hs x)
unfolding all_happen
all_happen-Goes [] x v = (x, refl, v)
all_happen-Goes (h ∷ hs) x v =
    let (y, done, w) = happens-Goes h x v in
    let (z, rest, k) = all_happen-Goes hs y w in
    (z, ap (λ o. then_all o (all_happen hs)) done ∙ rest, k)

abbrev watched : Bus → Bus × Option Stream → Option Watched
watched b (b', none) = none
watched b (b', some t) = some (record { stream = t; bus = b'; taken = [] })

-- A client connects, and then things happen.
abbrev pub watch : Writer → List Happening → Bus → Option Watched
watch w hs b = then_all (watched b (open_stream true w b).1) (all_happen hs)

-- On a sound bus, the frames that an event stream writes, its keepalives aside, are one for each
-- payload that was published since it connected while fewer than sixteen waited for it, in the
-- order of publication, but for those that still wait.
pub watch-IsInOrder : (w : Writer) (hs : List Happening) (b : Bus) → IsSound b → Goes (watch w hs b)
unfolding open_stream subscribe
watch-IsInOrder w hs b v = all_happen-Goes hs _ (record {
  sound = subscribe-IsSound b v;
  subscribed = ground (arith);
  in_order = ground (arith);
})
