-- ===== src/System/Streams.antt =====
-- The subscribers of the bus as its clients come and go.
use go_fibe.Base.{ℕ, ◌≡◌, ◌∙◌, refl, arith, Option, none, some, List, [], ◌∷◌, map, find, sym}
use go_fibe.Event.{
  Bus, Subscriber, without, unsubscribe, id_is, drop_subscriber, with_heap, close, Heap,
}
use go_fibe.Server.Events.{Stream, subscriber_of}
use go_fibe.System.{is_stream, replace, remove}

pub remove_subscribers :
    (id : ℕ) (ts : List Stream)
    → map subscriber_of (remove id ts) ≡ without id (map subscriber_of ts)
remove_subscribers id [] = refl
remove_subscribers id (t ∷ ts) = ground (arith, remove_subscribers id ts)

pub replace_subscribers :
    (id : ℕ) (t t' : Stream) (ts : List Stream)
    → find (is_stream id) ts ≡ some t
    → subscriber_of t' ≡ subscriber_of t
    → map subscriber_of (replace id t' ts) ≡ map subscriber_of ts
replace_subscribers id t t' [] h e = refl
replace_subscribers id t t' (s ∷ ts) h e = ground (arith, replace_subscribers id t t' ts, e)

pub without_missing :
    (id : ℕ) (ss : List Subscriber) → find (id_is id) ss ≡ none → without id ss ≡ ss
without_missing id [] h = refl
without_missing id (s ∷ ss) h = ground (arith, without_missing id ss)

pub closed_subscribers :
    (b b' : Bus) (o : Option Heap) → with_heap b o ≡ some b' → b'.subscribers ≡ b.subscribers
closed_subscribers b b' none e = cc
closed_subscribers b b' (some h) e = ground (arith, e)

pub dropped_subscribers :
    (id : ℕ) (b b' : Bus) (o : Option Subscriber)
    → find (id_is id) b.subscribers ≡ o
    → drop_subscriber id b o ≡ some b'
    → b'.subscribers ≡ without id b.subscribers
dropped_subscribers id b b' none h e = ground (arith, e) ∙ sym (without_missing id b.subscribers h)
dropped_subscribers id b b' (some s) h e =
    closed_subscribers (record b { subscribers = without id b.subscribers }) b'
      (close s.channel b.heap) e

pub unsubscribed :
    (id : ℕ) (b b' : Bus) → unsubscribe id b ≡ some b' → b'.subscribers ≡ without id b.subscribers
unfolding unsubscribe
unsubscribed id b b' e = dropped_subscribers id b b' _ refl e

pub found_id :
    (id : ℕ) (t : Stream) (ts : List Stream) → find (is_stream id) ts ≡ some t → t.id ≡ id
found_id id t [] h = cc
found_id id t (s ∷ ts) h = ground (arith, found_id id t ts)
