-- ===== src/Redis.antt =====
-- The commands that the program sends to Redis, each of which may fail. The server is a parameter:
-- how it replies to a command, by what it has executed before.
pub mod Laws
pub mod Entries
use go_fibe.Base.{ℕ, suc, Bool, false, ◌||◌, Option, none, some, List, [], ◌∷◌, any, ◌+◌}
use go_fibe.Base.Exec.{Result, ok, err, Exec}
use go_fibe.Strings.{GoString, ◌==◌}
use go_fibe.Models.{Time}
use go_fibe.Db.Engine.{Fate, answered, refused, unacked}

-- A command; times to live are in microseconds.
pub data Op : Type 0 where
  gets : GoString → Op
  sets : GoString → GoString → ℕ → Op
  dels : List GoString → Op
  incrs : GoString → Op
  expires : GoString → ℕ → Op
  publishes : GoString → Op
  pings : Op

pub data Reply : Type 0 where
  absent : Reply
  text : GoString → Reply
  count : ℕ → Reply
  done : Reply
  -- An error reply, such as WRONGTYPE.
  wrong : Reply

-- A command that the server has executed, and when.
pub record Executed : Type 0 where
  pub at : Time
  pub op : Op

-- The latest command first.
abbrev pub Log : Type 0
Log = List Executed

abbrev pub Server : Type 0
Server = Log → Time → Op → Reply

pub record Redis : Type 0 where
  pub log : Log
  pub serve : Server
  pub calls : ℕ
  pub fate : ℕ → Fate
  pub clock : ℕ → Time

pub data RedisError : Type 0 where
  -- redis.Nil
  nil : RedisError
  unreachable : RedisError
  -- An error reply, or one that is not of the command.
  bad_reply : RedisError

abbrev pub Command : Type 0 → Type 0
Command A = Exec Redis RedisError A

abbrev pub tick : Redis → Redis
tick r = record r { calls = suc r.calls }

abbrev pub execute : Op → Redis → Redis
execute op r = record (tick r) { log = record { at = r.clock r.calls; op = op } ∷ r.log }

module _ {A : Type 0} where
  abbrev pub settle :
      Fate → (Reply → Result RedisError A) → Op → Redis → Result RedisError A × Redis
  settle answered read op r = (read (r.serve r.log (r.clock r.calls) op), execute op r)
  settle unacked read op r = (err unreachable, execute op r)
  settle refused read op r = (err unreachable, tick r)

  -- One round trip: the server may not be reached, or its reply may not arrive.
  unfoldable pub send : (Reply → Result RedisError A) → Op → Command A
  send read op r = settle (r.fate r.calls) read op r

abbrev pub text_of : Reply → Result RedisError GoString
text_of absent = err nil
text_of (text s) = ok s
text_of _ = err bad_reply

abbrev pub count_of : Reply → Result RedisError ℕ
count_of (count n) = ok n
count_of _ = err bad_reply

-- For a result that the program does not look at.
abbrev pub done_of : Reply → Result RedisError (Unit {0})
done_of wrong = err bad_reply
done_of _ = ok tt

unfoldable pub get : GoString → Command GoString
unfolding send
get k = send text_of (gets k)

unfoldable pub set : GoString → GoString → ℕ → Command (Unit {0})
unfolding send
set k v ttl = send done_of (sets k v ttl)

unfoldable pub del : List GoString → Command (Unit {0})
unfolding send
del ks = send done_of (dels ks)

unfoldable pub incr : GoString → Command ℕ
unfolding send
incr k = send count_of (incrs k)

unfoldable pub expire : GoString → ℕ → Command (Unit {0})
unfolding send
expire k ttl = send done_of (expires k ttl)

-- On the channel of internal/event/bus.go
unfoldable pub publish : GoString → Command (Unit {0})
unfolding send
publish payload = send done_of (publishes payload)

unfoldable pub ping : Command (Unit {0})
unfolding send
ping = send done_of pings
