-- ===== src/Db/Engine.antt =====
-- How statements and transactions run against a server that may fail at any call. The pool itself
-- (pgxpool) is left out: a statement has a connection or fails.
use go_fibe.Base.{ℕ, suc}
use go_fibe.Base.Exec.{Result, ok, err, Exec}
use go_fibe.Models.{Time}
use go_fibe.Db.Schema.{Tables, DbError, unreachable, Statement}

-- What becomes of one call to the server. A call that is `unacked` was carried out, and its answer
-- was lost.
pub data Fate : Type 0 where
  answered refused unacked : Fate

-- The store: the tables that other sessions see, and how the server treats each call.
pub record Store : Type 0 where
  pub tables : Tables
  pub calls : ℕ
  pub fate : ℕ → Fate
  pub clock : ℕ → Time

abbrev pub Action : Type 0 → Type 0
Action A = Exec Store DbError A

abbrev pub next : Store → Store
next s = record s { calls = suc s.calls }

module _ {A : Type 0} where
  abbrev pub settle : Fate → Result DbError (A × Tables) → Store → Result DbError A × Store
  settle answered (ok (a, t)) s = (ok a, record s { tables = t })
  settle answered (err e) s = (err e, s)
  settle unacked (ok (a, t)) s = (err unreachable, record s { tables = t })
  settle unacked (err e) s = (err unreachable, s)
  settle refused r s = (err unreachable, s)

  -- pool.QueryRow, pool.Query and pool.Exec: a statement that commits by itself.
  unfoldable pub query : Statement A → Action A
  query stmt s = settle (s.fate s.calls) (stmt (s.clock s.calls) s.tables) (next s)

-- An open transaction: what it has written is its own, and now() is its start.
pub record Tx : Type 0 where
  pub store : Store
  pub pending : Tables
  pub started : Time

module _ {A : Type 0} where
  abbrev pub settle_tx : Fate → Result DbError (A × Tables) → Tx → Result DbError A × Tx
  settle_tx answered (ok (a, t)) tx = (ok a, record tx { pending = t })
  settle_tx answered (err e) tx = (err e, tx)
  settle_tx _ r tx = (err unreachable, tx)

  -- tx.Exec
  unfoldable pub exec : Statement A → Exec Tx DbError A
  exec stmt tx =
      settle_tx (tx.store.fate tx.store.calls) (stmt tx.started tx.pending)
        (record tx { store = next tx.store })

  abbrev pub commit : Fate → A → Tx → Result DbError A × Store
  commit answered a tx = (ok a, record (next tx.store) { tables = tx.pending })
  commit unacked a tx = (err unreachable, record (next tx.store) { tables = tx.pending })
  commit refused a tx = (err unreachable, next tx.store)

  -- After an error the deferred tx.Rollback drops what the transaction wrote.
  abbrev pub finish : Result DbError A → Tx → Result DbError A × Store
  finish (ok a) tx = commit (tx.store.fate tx.store.calls) a tx
  finish (err e) tx = (err e, next tx.store)

  abbrev pub start : Fate → Exec Tx DbError A → Store → Result DbError A × Store
  start answered body s =
      let (r, tx) =
        body (record { store = next s; pending = s.tables; started = s.clock s.calls }) in
      finish r tx
  start _ body s = (err unreachable, next s)

  -- pool.Begin, a body that returns at its first error, and tx.Commit
  unfoldable pub transaction : Exec Tx DbError A → Action A
  transaction body s = start (s.fate s.calls) body s
