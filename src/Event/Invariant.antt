-- ===== src/Event/Invariant.antt =====
-- The bus never panics, whatever its clients do with it.
use go_fibe.Base.{
  ℕ, suc, ◌+◌, ◌≤◌, ◌≡◌, refl, inl, inr, Bool, true, false, not, ◌&&◌, ◌||◌, some, List, [], ◌∷◌,
  ltb, leb, eqb, length, find, filter, any, all, arith, Bool-cases, Option-cases,
}
use go_fibe.Base.Counting.{all-filter, all_mono}
use go_fibe.Event.{
  Channel, capacity, make_channel, Heap, put, Subscriber, Bus, new_bus, id_is, without, subscribe,
  drop_subscriber, with_heap, unsubscribe,
}

abbrev pub shares : Subscriber → Subscriber → Bool
shares s r = eqb r.id s.id || eqb r.channel s.channel

-- No two subscribers share a number or a channel.
abbrev pub distinct : List Subscriber → Bool
distinct [] = true
distinct (s ∷ ss) = not (any (shares s) ss) && distinct ss

abbrev pub is_open_in : Heap → Subscriber → Bool
is_open_in h s = not (h s.channel).closed

pub record IsSound (b : Bus) : Type 0 where
  pub numbered : all (λ s. leb s.id b.next_id && ltb s.channel b.allocated) b.subscribers ≡ true
  pub separate : distinct b.subscribers ≡ true
  pub all_open : all (is_open_in b.heap) b.subscribers ≡ true
  pub bounded : (a : ℕ) → length (b.heap a).buffer ≤ capacity

pub new_bus-IsSound : IsSound new_bus
unfolding new_bus
new_bus-IsSound = record {
  numbered = refl;
  separate = refl;
  all_open = refl;
  bounded = λ a. omega arith;
}

any-filter-false :
    (p q : Subscriber → Bool) (ss : List Subscriber)
    → any p ss ≡ false
    → any p (filter q ss) ≡ false
any-filter-false p q [] h = refl
any-filter-false p q (s ∷ ss) h = ground (arith, any-filter-false p q ss)

distinct-filter :
    (q : Subscriber → Bool) (ss : List Subscriber)
    → distinct ss ≡ true
    → distinct (filter q ss) ≡ true
distinct-filter q [] h = refl
distinct-filter q (s ∷ ss) h =
    ground (arith, distinct-filter q ss, any-filter-false (shares s) q ss)

-- Numbers and addresses that are not used yet are shared with nobody.
fresh_any :
    (id a : ℕ) (s : Subscriber) (ss : List Subscriber)
    → s.id ≡ id + 1
    → s.channel ≡ a
    → all (λ r. leb r.id id && ltb r.channel a) ss ≡ true
    → any (shares s) ss ≡ false
fresh_any id a s [] e e' h = refl
fresh_any id a s (r ∷ ss) e e' h = ground (arith, fresh_any id a s ss)

open-put_other :
    (h : Heap) (a : ℕ) (c : Channel) (ss : List Subscriber)
    → all (λ r. ltb r.channel a) ss ≡ true
    → all (is_open_in h) ss ≡ true
    → all (is_open_in (put h a c)) ss ≡ true
open-put_other h a c [] k o = refl
open-put_other h a c (r ∷ ss) k o = ground (arith, open-put_other h a c ss)

pub subscribe-IsSound : (b : Bus) → IsSound b → IsSound (subscribe b).0
unfolding subscribe
subscribe-IsSound b v =
    let kept = without (b.next_id + 1) b.subscribers in
    let old : all (λ s. leb s.id b.next_id && ltb s.channel b.allocated) kept ≡ true =
      all-filter _ _ _ b.subscribers (λ s _ h. h) v.numbered in
    record {
      numbered = ground (
        arith,
        all_mono _ (λ (s : Subscriber). leb s.id (b.next_id + 1) && ltb s.channel (suc b.allocated))
            kept (λ s h. ground arith) old,
      );
      separate = ground (
        arith,
        fresh_any b.next_id b.allocated (record { id = b.next_id + 1; channel = b.allocated }) kept
            refl refl old,
        distinct-filter (λ s. not (id_is (b.next_id + 1) s)) b.subscribers v.separate,
      );
      all_open = ground (
        arith,
        open-put_other b.heap b.allocated make_channel kept
            (all_mono _ (λ (s : Subscriber). ltb s.channel b.allocated) kept (λ s h. ground arith)
              old)
            (all-filter _ _ (is_open_in b.heap) b.subscribers (λ s _ h. h) v.all_open),
      );
      bounded = λ a. ground (arith, v.bounded a);
    }

not_shared :
    (h : Heap) (c : Channel) (q : Subscriber → Bool) (r : Subscriber) (ss : List Subscriber)
    → any (shares r) ss ≡ false
    → all (is_open_in h) ss ≡ true
    → all (is_open_in (put h r.channel c)) (filter q ss) ≡ true
not_shared h c q r [] n o = refl
not_shared h c q r (s ∷ ss) n o = ground (arith, not_shared h c q r ss)

found_any :
    (p q : Subscriber → Bool) (ss : List Subscriber) (s : Subscriber)
    → find p ss ≡ some s
    → any q ss ≡ false
    → q s ≡ false
found_any p q [] s f n = cc
found_any p q (r ∷ ss) s f n = ground (arith, found_any p q ss s)

-- Closing the channel of a subscriber that is found, and dropping it.
closing :
    (id : ℕ) (c : Channel) (h : Heap) (ss : List Subscriber) (s : Subscriber)
    → find (id_is id) ss ≡ some s
    → distinct ss ≡ true
    → all (is_open_in h) ss ≡ true
    → ((h s.channel).closed ≡ false) × (all (is_open_in (put h s.channel c)) (without id ss) ≡ true)
closing id c h [] s f d o = cc
closing id c h (r ∷ ss) s f d o = elim (Bool-cases (id_is id r)) [
  | inl here ↦
      let e : r ≡ s = ground arith in
      rw (← e) (ground arith, ground (arith, not_shared h c (λ t. not (id_is id t)) r ss))
  | inr later ↦
      let (closed, rest) = closing id c h ss s (ground arith) (ground arith) (ground arith) in
      (closed, ground (arith, rest, found_any (id_is id) (shares r) ss s))
]

pub unsubscribe-IsSound :
    (id : ℕ) (b : Bus) → IsSound b → (b' : Bus) × (unsubscribe id b ≡ some b') × IsSound b'
unfolding unsubscribe
unsubscribe-IsSound id b v = elim (Option-cases (find (id_is id) b.subscribers)) [
  | inl missing ↦ (b, rw (missing, drop_subscriber), v)
  | inr (s, found) ↦
      let c = record (b.heap s.channel) { closed = true } in
      let (was_open, rest) = closing id c b.heap b.subscribers s found v.separate v.all_open in
      (
        record b { subscribers = without id b.subscribers; heap = put b.heap s.channel c },
        rw (found, drop_subscriber) (rw (was_open, with_heap)),
        record {
          numbered = all-filter _ _ _ b.subscribers (λ s _ h. h) v.numbered;
          separate = distinct-filter _ b.subscribers v.separate;
          all_open = rest;
          bounded = λ a. ground (arith, v.bounded a, v.bounded s.channel);
        },
      )
]
