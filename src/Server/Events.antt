-- ===== src/Server/Events.antt =====
-- The event stream of internal/server/server.go: one subscriber of the local bus for each client.
use go_fibe.Base.{ℕ, Bool, true, false, Option, none, some, List, [], ◌∷◌, ◌++◌}
use go_fibe.Strings.{GoString, str}
use go_fibe.Http.{Writer, set_header, http_error}
use go_fibe.Event.{Bus, Subscriber, subscribe, unsubscribe, receive}

-- A client that is connected, and the frames that it was sent.
pub record Stream : Type 0 where
  pub id : ℕ
  pub channel : ℕ
  pub output : List GoString

abbrev pub subscriber_of : Stream → Subscriber
subscriber_of t = record { id = t.id; channel = t.channel }

abbrev pub event_headers : Writer → Writer
event_headers w = set_header (str "Connection") (str "keep-alive") (
    set_header (str "Cache-Control") (str "no-cache")
      (set_header (str "Content-Type") (str "text/event-stream") w))

-- The handler up to its loop; `flushes` says whether the writer is an http.Flusher.
unfoldable pub open_stream : Bool → Writer → Bus → Writer × (Bus × Option Stream)
open_stream false w b = (http_error 500 (event_headers w), (b, none))
open_stream true w b =
    let (b', id, channel) = subscribe b in
    (event_headers w, (b', some (record { id = id; channel = channel; output = [] })))

-- What the select of the loop takes.
pub data Wakeup : Type 0 where
  -- <-r.Context().Done(), payload := <-ch, and <-time.After(25 * time.Second)
  gone payload quiet : Wakeup

abbrev pub message_frame : GoString → GoString
message_frame p = str "event: message" ++ (b'\n' ∷ str "data: " ++ (p ++ b'\n' ∷ b'\n' ∷ []))

abbrev pub keepalive_frame : GoString
keepalive_frame = str ": keepalive" ++ b'\n' ∷ b'\n' ∷ []

abbrev pub written : GoString → Stream → Stream
written frame t = record t { output = t.output ++ frame ∷ [] }

abbrev pub received : Stream → Bus × Option GoString → Bus × Option Stream
received t (b, none) = (b, some t)
received t (b, some p) = (b, some (written (message_frame p) t))

abbrev pub ended : Option Bus → Option (Bus × Option Stream)
ended none = none
ended (some b) = some (b, none)

-- A turn of the loop; at the end the deferred Unsubscribe runs. `none` is a panic. A select on an
-- empty channel takes another case.
unfoldable pub stream_turn : Wakeup → Stream → Bus → Option (Bus × Option Stream)
stream_turn gone t b = ended (unsubscribe t.id b)
stream_turn payload t b = some (received t (receive t.channel b))
stream_turn quiet t b = some (b, some (written keepalive_frame t))
