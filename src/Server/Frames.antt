-- ===== src/Server/Frames.antt =====
-- The frames of the event stream of internal/server/server.go, and what the stream takes from its
-- channel.
use go_fibe.Base.{
  ℕ, ◌≡◌, ◌∙◌, refl, ap, arith, Bool, true, false, not, none, some, List, [], ◌∷◌, ◌++◌, map,
  filter,
}
use go_fibe.Strings.{GoString, ◌==◌}
use go_fibe.Event.{put, Bus, receive}
use go_fibe.Server.Events.{Stream, written, message_frame, keepalive_frame}
use mathlib.Core.List.{append-nil}

abbrev pub is_message : GoString → Bool
is_message frame = not (frame == keepalive_frame)

-- The frames that are no keepalive.
abbrev pub messages : Stream → List GoString
messages t = filter is_message t.output

pub filter-append :
    (p : GoString → Bool) (xs ys : List GoString) → filter p (xs ++ ys) ≡ filter p xs ++ filter p ys
filter-append p [] ys = refl
filter-append p (x ∷ xs) ys = ground (arith, filter-append p xs ys)

pub map-append :
    (xs ys : List GoString)
    → map message_frame (xs ++ ys) ≡ map message_frame xs ++ map message_frame ys
map-append [] ys = refl
map-append (x ∷ xs) ys = ap (λ l. message_frame x ∷ l) (map-append xs ys)

pub frame_is_message : (p : GoString) → is_message (message_frame p) ≡ true
unfolding ◌==◌
frame_is_message p = refl

pub keepalive_is_none : is_message keepalive_frame ≡ false
unfolding ◌==◌
keepalive_is_none = refl

pub messages-written :
    (p : GoString) (t : Stream)
    → messages (written (message_frame p) t) ≡ messages t ++ message_frame p ∷ []
messages-written p t =
    filter-append is_message t.output (message_frame p ∷ []) ∙ rw (frame_is_message p) refl

pub messages-keepalive : (t : Stream) → messages (written keepalive_frame t) ≡ messages t
messages-keepalive t =
    filter-append is_message t.output (keepalive_frame ∷ [])
    ∙ rw keepalive_is_none (append-nil (messages t))

pub receive-none : (a : ℕ) (b : Bus) → (b.heap a).buffer ≡ [] → receive a b ≡ (b, none)
unfolding receive
receive-none a b e = rw (e, receive) refl

abbrev pub taken_from : ℕ → Bus → List GoString → Bus
taken_from a b rest = record b { heap = put b.heap a (record (b.heap a) { buffer = rest }) }

pub receive-some :
    (a : ℕ) (b : Bus) (p : GoString) (rest : List GoString)
    → (b.heap a).buffer ≡ p ∷ rest
    → receive a b ≡ (taken_from a b rest, some p)
unfolding receive
receive-some a b p rest e = rw (e, receive) refl

pub buffer-taken_from :
    (a : ℕ) (b : Bus) (rest : List GoString) → ((taken_from a b rest).heap a).buffer ≡ rest
buffer-taken_from a b rest = ground arith
