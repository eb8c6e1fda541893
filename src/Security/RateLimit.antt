-- ===== src/Security/RateLimit.antt =====
-- How many requests of one client and minute the limiter of internal/security/security.go lets
-- through.
use Prim.Native.Nat.{min}
use go_fibe.Base.{
  ℕ, zero, suc, ◌+◌, ◌≤◌, ◌<◌, ℤ, pos, ◌≡◌, ◌∙◌, refl, false, true, [], ◌∷◌, ltb, arith,
  if◌then◌else◌,
}
use go_fibe.Strings.{GoString}
use go_fibe.Strings.Equality.{eq_refl}
use go_fibe.Models.{Time}
use go_fibe.Db.Engine.{answered}
use go_fibe.Redis.{
  Redis, Log, Op, gets, sets, dels, incrs, expires, publishes, pings, count, execute, send, incr,
  expire,
}
use go_fibe.Redis.Laws.{IsRedis, writes, is_written, is_alive, is_later, expiry}
use go_fibe.Security.Limiter.{Verdict, passes, unavailable, too_many, take_token}

abbrev is_pass : Verdict → ℕ
is_pass passes = 1
is_pass unavailable = 0
is_pass too_many = 0

-- The requests of one key, one after the other: how many pass, and what Redis holds then.
pub take_tokens : ℕ → GoString → ℤ → Redis → ℕ × Redis
take_tokens zero key limit r = (0, r)
take_tokens (suc n) key limit r =
    let (v, r') = take_token key limit r in
    let (passed, r'') = take_tokens n key limit r' in (is_pass v + passed, r'')

-- Redis answers, its clock does not go back, and all happens within the life of a counter that
-- starts at `start`.
pub record IsSteady (start : Time) (r : Redis) : Type 0 where
  pub answers : (n : ℕ) → r.fate n ≡ answered
  pub onward : (n : ℕ) → r.clock n ≤ r.clock (suc n)
  pub after : (n : ℕ) → start ≤ r.clock n
  pub before : (n : ℕ) → r.clock n < start + 75000000

-- The next INCR of the key counts c, and the counter lives on.
record CountsTo (key : GoString) (c : ℕ) (r : Redis) : Type 0 where
  counts : r.serve r.log (r.clock r.calls) (incrs key) ≡ count c
  alive : (n : ℕ) → is_alive key (r.clock n) r.log ≡ true

fresh-is_alive :
    (key : GoString) (now : Time) (log : Log)
    → is_written key log ≡ false
    → is_alive key now log ≡ true
fresh-is_alive key now [] h = refl
fresh-is_alive key now (e ∷ log) h =
    ground (arith, fresh-is_alive key now log (ground arith), unwritten key e.at e.op now)
  where
    unwritten :
        (key : GoString) (at : Time) (op : Op) (now : Time)
        → writes key op ≡ false
        → is_later now (expiry key (record { at = at; op = op })) ≡ true
    unwritten key at (sets j v ttl) now h = ground arith
    unwritten key at (expires j ttl) now h = ground arith
    unwritten key at (gets j) now h = refl
    unwritten key at (dels j) now h = refl
    unwritten key at (incrs j) now h = refl
    unwritten key at (publishes j) now h = refl
    unwritten key at pings now h = refl

abbrev counted_once : GoString → Redis → Redis
counted_once key r = execute (expires key 75000000) (execute (incrs key) r)

module _ (start : Time) (key : GoString) (limit : ℕ) where
  abbrev verdict : ℕ → Verdict
  verdict c = if ltb limit c then too_many else passes

  first_token :
      (r : Redis)
      → IsSteady start r
      → CountsTo key 1 r
      → take_token key (pos limit) r ≡ (verdict 1, counted_once key r)
  unfolding take_token incr expire send
  first_token r s h = rw (s.answers r.calls, h.counts, s.answers (suc r.calls)) (ground arith)

  next_token :
      (r : Redis) (c : ℕ)
      → IsSteady start r
      → CountsTo key (suc (suc c)) r
      → take_token key (pos limit) r ≡ (verdict (suc (suc c)), execute (incrs key) r)
  unfolding take_token incr expire send
  next_token r c s h = rw (s.answers r.calls, h.counts) (ground arith)

  first-CountsTo :
      (r : Redis)
      → IsRedis r.serve
      → IsSteady start r
      → CountsTo key 1 r
      → CountsTo key 2 (counted_once key r)
  first-CountsTo r v s h =
      let alive : (n : ℕ) → is_alive key (r.clock n) (counted_once key r).log ≡ true =
        λ n. ground (arith, h.alive n, eq_refl key, s.before n, s.after (suc r.calls)) in
      record {
        alive = alive;
        counts =
            v.incr_expire key 75000000 _ _ _ (s.onward (suc r.calls)) (alive (suc (suc r.calls)))
            ∙ v.incr_incr key _ _ r.log 1 (h.alive (suc (suc r.calls))) h.counts;
      }

  next-CountsTo :
      (r : Redis) (c : ℕ)
      → IsRedis r.serve
      → CountsTo key c r
      → CountsTo key (suc c) (execute (incrs key) r)
  next-CountsTo r c v h = record {
    alive = h.alive;
    counts = v.incr_incr key _ _ r.log c (h.alive (suc r.calls)) h.counts;
  }

  IsSteady-execute : (op : Op) (r : Redis) → IsSteady start r → IsSteady start (execute op r)
  IsSteady-execute op r s = record {
    answers = s.answers;
    onward = s.onward;
    after = s.after;
    before = s.before;
  }

  later_tokens :
      (n : ℕ) (r : Redis) (c : ℕ)
      → IsRedis r.serve
      → IsSteady start r
      → CountsTo key (suc (suc c)) r
      → (take_tokens n key (pos limit) r).0 + min (suc c) limit ≡ min (suc c + n) limit
  unfolding take_tokens
  later_tokens zero r c v s h = omega arith
  later_tokens (suc n) r c v s h =
      let rest =
        later_tokens n (execute (incrs key) r) (suc c) v (IsSteady-execute (incrs key) r s)
          (next-CountsTo r (suc (suc c)) v h) in
      rw (next_token r c s h) (ground (arith, rest))

  -- Of n requests that share a fresh key, while their counter lives, with Redis answering and its
  -- clock not going back, exactly min n limit pass the limiter.
  pub take_tokens_count :
      (n : ℕ) (r : Redis)
      → IsRedis r.serve
      → IsSteady start r
      → is_written key r.log ≡ false
      → (take_tokens n key (pos limit) r).0 ≡ min n limit
  unfolding take_tokens
  take_tokens_count zero r v s e = omega arith
  take_tokens_count (suc n) r v s e =
      let h : CountsTo key 1 r = record {
        counts = v.incr_fresh key r.log (r.clock r.calls) e;
        alive = λ m. fresh-is_alive key (r.clock m) r.log e;
      } in
      let s' =
        IsSteady-execute (expires key 75000000) (execute (incrs key) r)
          (IsSteady-execute (incrs key) r s) in
      rw (first_token r s h)
        (ground (arith, later_tokens n (counted_once key r) 0 v s' (first-CountsTo r v s h)))
