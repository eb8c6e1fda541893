-- ===== src/Tests/RedisServer.antt =====
-- A Redis server that does what the program relies on.
use go_fibe.Base.{
  ℕ, suc, ◌+◌, inl, inr, Bool-cases, ◌≤◌, ◌≡◌, ◌∙◌, refl, ap, arith, Bool, true, false, Option,
  none, some, [], ◌∷◌, any, if◌then◌else◌,
}
use go_fibe.Strings.{GoString, ◌==◌}
use go_fibe.Strings.Equality.{eq_refl}
use go_fibe.Models.{Time}
use go_fibe.Redis.{
  Op, gets, sets, dels, incrs, expires, publishes, pings, Reply, absent, text, count, done, wrong,
  Executed, Log, Server,
}
use go_fibe.Redis.Laws.{IsRedis, writes, is_written, is_alive, is_later, expiry}

pub data Value : Type 0 where
  string : GoString → Value
  -- What INCR counts.
  number : ℕ → Value

pub record Entry : Type 0 where
  pub value : Value
  pub expires : Option Time

abbrev live : Time → Option Entry → Option Entry
live now none = none
live now (some e) = if is_later now e.expires then some e else none

abbrev count_up : Option Entry → Option Entry
count_up none = some (record { value = number 1; expires = none })
count_up (some e) = elim e.value [
  | string s ↦ some e
  | number n ↦ some (record e { value = number (suc n) })
]

abbrev expire_at : Time → Option Entry → Option Entry
expire_at at none = none
expire_at at (some e) = some (record e { expires = some at })

abbrev after : GoString → Executed → Option Entry → Option Entry
after k e entry = elim e.op [
  | sets j v ttl ↦
      if j == k then some (record { value = string v; expires = some (e.at + ttl) }) else entry
  | dels ks ↦ if any (λ j. j == k) ks then none else entry
  | incrs j ↦ if j == k then count_up (live e.at entry) else entry
  | expires j ttl ↦ if j == k then expire_at (e.at + ttl) (live e.at entry) else entry
  | _ ↦ entry
]

-- The entry of a key, which may have expired.
abbrev entry_of : GoString → Log → Option Entry
entry_of k [] = none
entry_of k (e ∷ log) = after k e (entry_of k log)

abbrev text_reply : Option Entry → Reply
text_reply none = absent
text_reply (some e) = elim e.value [ string s ↦ text s | number n ↦ wrong ]

abbrev count_reply : Option Entry → Reply
count_reply none = count 1
count_reply (some e) = elim e.value [ string s ↦ wrong | number n ↦ count (suc n) ]

abbrev pub serve : Server
serve log now op = elim op [
  | gets k ↦ text_reply (live now (entry_of k log))
  | incrs k ↦ count_reply (live now (entry_of k log))
  | _ ↦ done
]

after_apart :
    (k : GoString) (at : Time) (op : Op) (entry : Option Entry)
    → writes k op ≡ false
    → after k (record { at = at; op = op }) entry ≡ entry
after_apart k at (gets j) entry h = refl
after_apart k at (sets j v ttl) entry h = ground arith
after_apart k at (dels ks) entry h = rw h refl
after_apart k at (incrs j) entry h = rw h refl
after_apart k at (expires j ttl) entry h = rw h refl
after_apart k at (publishes j) entry h = refl
after_apart k at pings entry h = refl

entry_of-fresh : (k : GoString) (log : Log) → is_written k log ≡ false → entry_of k log ≡ none
entry_of-fresh k [] h = refl
entry_of-fresh k (e ∷ log) h =
    after_apart k e.at e.op (entry_of k log) (ground arith) ∙ entry_of-fresh k log (ground arith)

abbrev lives : Time → Option Entry → Bool
lives now none = true
lives now (some e) = is_later now e.expires

lives-live :
    (now at : Time) (entry : Option Entry)
    → lives now entry ≡ true
    → lives now (live at entry) ≡ true
lives-live now at none h = refl
lives-live now at (some e) h = ground arith

lives-count_up :
    (now : Time) (entry : Option Entry) → lives now entry ≡ true → lives now (count_up entry) ≡ true
lives-count_up now none h = refl
lives-count_up now (some e) h = counted e.value e.expires h
  where
    counted :
        (v : Value) (t : Option Time)
        → is_later now t ≡ true
        → lives now (count_up (some (record { value = v; expires = t }))) ≡ true
    counted (string s) t h = h
    counted (number n) t h = h

lives-after :
    (k : GoString) (at : Time) (op : Op) (now : Time) (entry : Option Entry)
    → lives now entry ≡ true
    → is_later now (expiry k (record { at = at; op = op })) ≡ true
    → lives now (after k (record { at = at; op = op }) entry) ≡ true
lives-after k at (gets j) now entry h a = h
lives-after k at (sets j v ttl) now entry h a = ground arith
lives-after k at (dels ks) now entry h a = ground arith
lives-after k at (incrs j) now entry h a = elim (Bool-cases (j == k)) [
  | inl e ↦ rw e (lives-count_up now (live at entry) (lives-live now at entry h))
  | inr e ↦ rw e h
]
lives-after k at (expires j ttl) now none h a = ground arith
lives-after k at (expires j ttl) now (some e) h a = ground arith
lives-after k at (publishes j) now entry h a = h
lives-after k at pings now entry h a = h

lives-entry_of :
    (k : GoString) (now : Time) (log : Log)
    → is_alive k now log ≡ true
    → lives now (entry_of k log) ≡ true
lives-entry_of k now [] h = refl
lives-entry_of k now (e ∷ log) h =
    lives-after k e.at e.op now (entry_of k log) (lives-entry_of k now log (ground arith))
      (ground arith)

incr_again :
    (o : Option Entry) (now : Time) (n : ℕ)
    → lives now o ≡ true
    → count_reply o ≡ count n
    → count_reply (live now (count_up o)) ≡ count (suc n)
incr_again none now n h c = ap (λ r. elim r [ count m ↦ count (suc m) | _ ↦ wrong ]) c
incr_again (some e) now n h c = again e.value e.expires h c
  where
    again :
        (v : Value) (t : Option Time)
        → is_later now t ≡ true
        → count_reply (some (record { value = v; expires = t })) ≡ count n
        → count_reply (live now (count_up (some (record { value = v; expires = t }))))
          ≡ count (suc n)
    again (string s) t h c = cc
    again (number m) t h c = rw h (ap (λ r. elim r [ count m ↦ count (suc m) | _ ↦ wrong ]) c)

live_earlier :
    (entry : Option Entry) (at now : Time)
    → at ≤ now
    → lives now entry ≡ true
    → live at entry ≡ entry
live_earlier none at now le h = refl
live_earlier (some e) at now le h = earlier e.expires h
  where
    earlier :
        (t : Option Time)
        → is_later now t ≡ true
        → (if is_later at t then some e else none) ≡ some e
    earlier none h = refl
    earlier (some t) h = ground arith

expire_lives :
    (entry : Option Entry) (at now ttl : Time)
    → at ≤ now
    → lives now entry ≡ true
    → is_later now (some (at + ttl)) ≡ true
    → count_reply (live now (expire_at (at + ttl) entry)) ≡ count_reply (live now entry)
expire_lives none at now ttl le h t = refl
expire_lives (some e) at now ttl le h t = rw (t, h) refl

pub serve-IsRedis : IsRedis serve
serve-IsRedis = record {
  get_apart = λ k e log now h.
      ap (λ entry. text_reply (live now entry)) (after_apart k e.at e.op (entry_of k log) h);
  get_set = λ k v ttl at now log t. rw (eq_refl k) (ground arith);
  get_del = λ k ks at now log h. rw h refl;
  incr_fresh = λ k log now h. ap (λ entry. count_reply (live now entry)) (entry_of-fresh k log h);
  incr_incr = λ k at now log n h c. rw (eq_refl k) (
      incr_again (live at (entry_of k log)) now n
        (lives-live now at (entry_of k log) (lives-entry_of k now log h)) c);
  incr_expire = λ k ttl at now log le h.
      let alive = lives-entry_of k now log (ground arith) in
      rw (eq_refl k, live_earlier (entry_of k log) at now le alive)
        (expire_lives (entry_of k log) at now ttl le alive (ground (arith, eq_refl k)));
}
