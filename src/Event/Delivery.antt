-- ===== src/Event/Delivery.antt =====
-- Whom a published payload reaches.
use go_fibe.Base.{
  ℕ, ◌≤◌, ◌≡◌, ◌∙◌, refl, inl, inr, Bool, true, false, not, none, some, List, [], ◌∷◌, eqb, length,
  any, all, arith, ap, eqb_iff, Bool-cases, if◌then◌else◌, length-append,
}
use go_fibe.Base.Counting.{all_mono}
use go_fibe.Strings.{GoString}
use go_fibe.Event.{Channel, Heap, put, Subscriber, Bus, offer, send, publish_to, publish, with_heap}
use go_fibe.Event.Invariant.{IsSound, is_open_in, shares, distinct}

-- The heap after every subscriber in turn was offered the payload.
delivered : GoString → List Subscriber → Heap → Heap
delivered p [] h = h
delivered p (s ∷ ss) h = delivered p ss (put h s.channel (offer p (h s.channel)))

offer_keeps : (p : GoString) (c : Channel) → (offer p c).closed ≡ c.closed
offer_keeps p c = ground arith

offer_bounded : (p : GoString) (c : Channel) → length c.buffer ≤ 16 → length (offer p c).buffer ≤ 16
offer_bounded p c h = ground (arith, length-append c.buffer (p ∷ []))

closed-put :
    (h : Heap) (a : ℕ) (c : Channel) (b : ℕ)
    → c.closed ≡ (h a).closed
    → (put h a c b).closed ≡ (h b).closed
closed-put h a c b e = elim (Bool-cases (eqb a b)) [
  | inl same ↦ rw same (e ∙ ap (λ x. (h x).closed) ((eqb_iff a b).0 same))
  | inr other ↦ rw other
]

pub open-put :
    (h : Heap) (a : ℕ) (c : Channel) (ss : List Subscriber)
    → c.closed ≡ (h a).closed
    → all (is_open_in h) ss ≡ true
    → all (is_open_in (put h a c)) ss ≡ true
open-put h a c ss e =
    all_mono (is_open_in h) _ ss (λ s o. ap not (closed-put h a c s.channel e) ∙ o)

send_open :
    (p : GoString) (a : ℕ) (h : Heap)
    → (h a).closed ≡ false
    → send p a h ≡ some (put h a (offer p (h a)))
unfolding send
send_open p a h e = ap (λ b. if b then none else some (put h a (offer p (h a)))) e

publish_to-delivered :
    (p : GoString) (ss : List Subscriber) (h : Heap)
    → all (is_open_in h) ss ≡ true
    → publish_to p ss h ≡ some (delivered p ss h)
unfolding publish_to delivered
publish_to-delivered p [] h o = refl
publish_to-delivered p (s ∷ ss) h o =
    rw (send_open p s.channel h (ground arith), publish_to)
      (publish_to-delivered p ss (put h s.channel (offer p (h s.channel))) (
        open-put h s.channel (offer p (h s.channel)) ss (offer_keeps p (h s.channel))
          (ground arith)))

abbrev pub reaches : ℕ → Subscriber → Bool
reaches a s = eqb s.channel a

unshared :
    (s : Subscriber) (ss : List Subscriber)
    → any (shares s) ss ≡ false
    → any (reaches s.channel) ss ≡ false
unshared s [] h = refl
unshared s (r ∷ ss) h = ground (arith, unshared s ss)

delivered_at :
    (p : GoString) (a : ℕ) (ss : List Subscriber) (h : Heap)
    → distinct ss ≡ true
    → delivered p ss h a ≡ (if any (reaches a) ss then offer p (h a) else h a)
unfolding delivered
delivered_at p a [] h d = refl
delivered_at p a (s ∷ ss) h d = elim (Bool-cases (eqb s.channel a)) [
  | inl here ↦
      let e : s.channel ≡ a = ground arith in
      let n : any (reaches a) ss ≡ false = rw e at (unshared s ss (ground arith)) in
      delivered_at p a ss _ (ground arith) ∙ rw n (rw (here, e))
  | inr other ↦ delivered_at p a ss _ (ground arith) ∙ rw other
]

open-delivered :
    (p : GoString) (ss rs : List Subscriber) (h : Heap)
    → all (is_open_in h) rs ≡ true
    → all (is_open_in (delivered p ss h)) rs ≡ true
unfolding delivered
open-delivered p [] rs h o = o
open-delivered p (s ∷ ss) rs h o =
    open-delivered p ss rs _ (open-put h s.channel _ rs (offer_keeps p (h s.channel)) o)

-- On a sound bus Publish does not panic, keeps the bus sound, changes no subscription, appends the
-- payload to the channel of every subscriber that has room, and changes no other channel.
pub publish_lem :
    (p : GoString) (b : Bus)
    → IsSound b
    → (b' : Bus) × (publish p b ≡ some b')
      × IsSound b'
      × (b'.subscribers ≡ b.subscribers)
      × ((a : ℕ)
          → b'.heap a ≡ (if any (reaches a) b.subscribers then offer p (b.heap a) else b.heap a))
unfolding publish
publish_lem p b v =
    let h = delivered p b.subscribers b.heap in
    let at = λ (a : ℕ). delivered_at p a b.subscribers b.heap v.separate in
    (
      record b { heap = h },
      ap (with_heap b) (publish_to-delivered p b.subscribers b.heap v.all_open),
      record {
        numbered = v.numbered;
        separate = v.separate;
        all_open = open-delivered p b.subscribers b.subscribers b.heap v.all_open;
        bounded =
            λ a. rw (at a) (ground (arith, v.bounded a, offer_bounded p (b.heap a) (v.bounded a)));
      },
      refl,
      at,
    )
