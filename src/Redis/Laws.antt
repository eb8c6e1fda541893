-- ===== src/Redis/Laws.antt =====
-- What the program relies on of a Redis server: that it evicts no key before its time, and what is
-- documented of its commands.
use go_fibe.Base.{
  ℕ, suc, ◌+◌, ◌≤◌, ◌<◌, ◌≡◌, Bool, true, false, Option, none, some, List, ◌∷◌, any, all, ltb,
  if◌then◌else◌,
}
use go_fibe.Strings.{GoString, ◌==◌}
use go_fibe.Models.{Time}
use go_fibe.Redis.{
  Op, gets, sets, dels, incrs, expires, publishes, pings, absent, text, count, Executed, Log,
  Server,
}

-- The commands that may change the entry of a key.
abbrev pub writes : GoString → Op → Bool
writes k (gets j) = false
writes k (sets j v ttl) = j == k
writes k (dels ks) = any (λ j. j == k) ks
writes k (incrs j) = j == k
writes k (expires j ttl) = j == k
writes k (publishes payload) = false
writes k pings = false

abbrev pub is_written : GoString → Log → Bool
is_written k log = any (λ (e : Executed). writes k e.op) log

-- When the command lets the entry of the key expire.
abbrev pub expiry : GoString → Executed → Option Time
expiry k e = elim e.op [
  | sets j v ttl ↦ if j == k then some (e.at + ttl) else none
  | expires j ttl ↦ if j == k then some (e.at + ttl) else none
  | _ ↦ none
]

abbrev pub is_later : Time → Option Time → Bool
is_later now none = true
is_later now (some at) = ltb now at

-- No time to live that was given to the key is over.
abbrev pub is_alive : GoString → Time → Log → Bool
is_alive k now log = all (λ (e : Executed). is_later now (expiry k e)) log

-- The documented behaviour of GET, SET, DEL, INCR and EXPIRE.
pub record IsRedis (serve : Server) : Type 0 where
  pub get_apart :
      (k : GoString) (e : Executed) (log : Log) (now : Time)
      → writes k e.op ≡ false
      → serve (e ∷ log) now (gets k) ≡ serve log now (gets k)
  pub get_set :
      (k v : GoString) (ttl : ℕ) (at now : Time) (log : Log)
      → now < at + ttl
      → serve (record { at = at; op = sets k v ttl } ∷ log) now (gets k) ≡ text v
  pub get_del :
      (k : GoString) (ks : List GoString) (at now : Time) (log : Log)
      → any (λ j. j == k) ks ≡ true
      → serve (record { at = at; op = dels ks } ∷ log) now (gets k) ≡ absent
  pub incr_fresh :
      (k : GoString) (log : Log) (now : Time)
      → is_written k log ≡ false
      → serve log now (incrs k) ≡ count 1
  pub incr_incr :
      (k : GoString) (at now : Time) (log : Log) (n : ℕ)
      → is_alive k now log ≡ true
      → serve log at (incrs k) ≡ count n
      → serve (record { at = at; op = incrs k } ∷ log) now (incrs k) ≡ count (suc n)
  pub incr_expire :
      (k : GoString) (ttl : ℕ) (at now : Time) (log : Log)
      → at ≤ now
      → is_alive k now (record { at = at; op = expires k ttl } ∷ log) ≡ true
      → serve (record { at = at; op = expires k ttl } ∷ log) now (incrs k) ≡ serve log now (incrs k)
