-- ===== src/Redis/Entries.antt =====
-- What a later GET finds of a SET or a DEL.
use go_fibe.Base.{
  ℕ, ◌+◌, ◌<◌, ◌≡◌, ◌≢◌, ◌∙◌, ap, arith, true, false, List, [], ◌∷◌, ◌++◌, any, refl,
}
use go_fibe.Base.Exec.{ok}
use go_fibe.Strings.{GoString, ◌==◌}
use go_fibe.Models.{Time}
use go_fibe.Db.Engine.{Fate, answered, unacked, refused}
use go_fibe.Redis.{
  Redis, Op, sets, dels, settle, execute, done_of, Log, Executed, Server, text, absent, gets, get,
  set, del, send, text_of,
}
use go_fibe.Redis.Laws.{IsRedis, is_written}

module _ (serve : Server) (v : IsRedis serve) (k : GoString) where
  -- Commands on other keys make no difference.
  pub get_between :
      (between log : Log) (now : Time)
      → is_written k between ≡ false
      → serve (between ++ log) now (gets k) ≡ serve log now (gets k)
  get_between [] log now h = refl
  get_between (e ∷ between) log now h =
      v.get_apart k e (between ++ log) now (ground arith)
      ∙ get_between between log now (ground arith)

read_text :
    (o : Fate) (op : Op) (x y : Redis) {v : GoString}
    → o ≡ answered
    → y.serve y.log (y.clock y.calls) op ≡ text v
    → (settle o text_of op y).0 ≡ ok v
read_text o op x y h e = rw (h, e) refl

read_absent :
    (o : Fate) (op : Op) (y : Redis) (v : GoString)
    → y.serve y.log (y.clock y.calls) op ≡ absent
    → (settle o text_of op y).0 ≢ ok v
read_absent answered op y v e f = ground (arith, e)
read_absent unacked op y v e f = cc
read_absent refused op y v e f = cc

settled_ok :
    (o : Fate) (op : Op) (x : Redis)
    → (settle o done_of op x).0 ≡ ok tt
    → (settle o done_of op x).1 ≡ execute op x
settled_ok answered op x h = refl
settled_ok unacked op x h = refl
settled_ok refused op x h = cc

settled : (o : Fate) (op : Op) (x : Redis) → o ≢ refused → (settle o done_of op x).1 ≡ execute op x
settled answered op x h = refl
settled unacked op x h = refl
settled refused op x h = elim (h refl) [ ]

module _ (x y : Redis) (between : Log) (k : GoString) (v : IsRedis x.serve)
    (same : y.serve ≡ x.serve) (untouched : is_written k between ≡ false) where
  served :
      (e : Executed)
      → y.log ≡ between ++ e ∷ x.log
      → y.serve y.log (y.clock y.calls) (gets k) ≡ x.serve (e ∷ x.log) (y.clock y.calls) (gets k)
  served e h =
      rw (same, h) (get_between x.serve v k between (e ∷ x.log) (y.clock y.calls) untouched)

  -- A value that was set is there until its time to live is over.
  pub get-set :
      (value : GoString) (ttl : ℕ)
      → (set k value ttl x).0 ≡ ok tt
      → y.log ≡ between ++ (set k value ttl x).1.log
      → y.fate y.calls ≡ answered
      → y.clock y.calls < x.clock x.calls + ttl
      → (get k y).0 ≡ ok value
  unfolding get set send
  get-set value ttl h e f t =
      let op = sets k value ttl in
      let done = settled_ok (x.fate x.calls) op x h in
      let log = e ∙ ap (λ (r : Redis). between ++ r.log) done in
      read_text (y.fate y.calls) (gets k) x y f
        (served _ log ∙ v.get_set k value ttl (x.clock x.calls) (y.clock y.calls) x.log t)

  -- A key that was deleted is not there.
  pub get-del :
      (ks : List GoString) (value : GoString)
      → any (λ j. j == k) ks ≡ true
      → (del ks x).1 ≡ execute (dels ks) x
      → y.log ≡ between ++ (del ks x).1.log
      → (get k y).0 ≢ ok value
  unfolding get del send
  get-del ks value among done e =
      let log = e ∙ ap (λ (r : Redis). between ++ r.log) done in
      read_absent (y.fate y.calls) (gets k) y value
        (served _ log ∙ v.get_del k ks (x.clock x.calls) (y.clock y.calls) x.log among)

pub executed_ok :
    (ks : List GoString) (x : Redis) → (del ks x).0 ≡ ok tt → (del ks x).1 ≡ execute (dels ks) x
unfolding del send
executed_ok ks x h = settled_ok (x.fate x.calls) (dels ks) x h

pub executed :
    (ks : List GoString) (x : Redis) → x.fate x.calls ≢ refused → (del ks x).1 ≡ execute (dels ks) x
unfolding del send
executed ks x h = settled (x.fate x.calls) (dels ks) x h
