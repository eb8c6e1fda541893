-- ===== src/Db/Keeps.antt =====
-- Invariants of the tables, through statements, transactions and failing connections.
use go_fibe.Base.{ℤ, ◌≡◌, ◌∙◌, refl, Bool, true, false, Option, none, some, if◌then◌else◌}
use go_fibe.Base.Exec.{Result, ok, err, Exec, ◌>>=◌, continue, pure}
use go_fibe.Strings.{GoString}
use go_fibe.Models.{Time}
use go_fibe.Db.Schema.{
  is_text, Tables, DbError, Statement, Uuid, cast_ok, with_uuid, with_text, with_int4, fits_int4,
}
use go_fibe.Db.Engine.{
  Store, Fate, answered, refused, unacked, Tx, settle, settle_tx, finish, commit, start, next,
  query, exec, transaction,
}

-- What a statement that returns leaves.
abbrev pub Holds : {A : Type 0} → (Tables → Type 0) → Result DbError (A × Tables) → Type 0
Holds P (ok (a, t)) = P t
Holds P (err e) = Unit

pub record Keeps {A : Type 0} (P : Tables → Type 0) (stmt : Statement A) : Type 0 where
  pub at : (now : Time) (t : Tables) → P t → Holds P (stmt now t)

-- A transaction's body keeps `P` of what it has written, and leaves the tables of others alone.
pub record TxKeeps {A : Type 0} (P : Tables → Type 0) (m : Exec Tx DbError A) : Type 0 where
  pub at : (tx : Tx) → P tx.pending → P (m tx).1.pending
  pub apart : (tx : Tx) → (m tx).1.store.tables ≡ tx.store.tables

module _ {A : Type 0} where
  settle_tx_apart :
      (f : Fate) (r : Result DbError (A × Tables)) (tx : Tx)
      → (settle_tx f r tx).1.store.tables ≡ tx.store.tables
  settle_tx_apart answered (ok (a, t)) tx = refl
  settle_tx_apart answered (err e) tx = refl
  settle_tx_apart unacked r tx = refl
  settle_tx_apart refused r tx = refl

module _ {A : Type 0} (P : Tables → Type 0) where
  pub Holds-if :
      (b : Bool) (x y : Result DbError (A × Tables))
      → (b ≡ true → Holds P x)
      → (b ≡ false → Holds P y)
      → Holds P (if b then x else y)
  Holds-if true x y h k = h refl
  Holds-if false x y h k = k refl

  Holds-cast_ok :
      (o : Option GoString) (body : GoString → Statement A) (now : Time) (t : Tables)
      → ((id : GoString) → o ≡ some id → Holds P (body id now t))
      → Holds P (cast_ok o body now t)
  Holds-cast_ok none body now t h = tt
  Holds-cast_ok (some id) body now t h = h id refl

  pub Keeps-with_uuid :
      ⦃u : Uuid⦄ (s : GoString) (body : GoString → Statement A)
      → ((id : GoString) → Keeps P (body id))
      → Keeps P (with_uuid s body)
  Keeps-with_uuid ⦃u⦄ s body h = record {
    at = λ now t p. Holds-cast_ok (u.cast s) body now t (λ id _. (h id).at now t p);
  }

  pub Keeps-with_text :
      (s : GoString) (body : Statement A) → Keeps P body → Keeps P (with_text s body)
  Keeps-with_text s body h = record {
    at = λ now t p. Holds-if (is_text s) _ _ (λ _. h.at now t p) (λ _. tt);
  }

  pub Keeps-with_int4 : (n : ℤ) (body : Statement A) → Keeps P body → Keeps P (with_int4 n body)
  Keeps-with_int4 n body h = record {
    at = λ now t p. Holds-if (fits_int4 n) _ _ (λ _. h.at now t p) (λ _. tt);
  }

  settle_keeps :
      (f : Fate) (r : Result DbError (A × Tables)) (s : Store)
      → P s.tables
      → Holds P r
      → P (settle f r s).1.tables
  settle_keeps answered (ok (a, t)) s p h = h
  settle_keeps answered (err e) s p h = p
  settle_keeps unacked (ok (a, t)) s p h = h
  settle_keeps unacked (err e) s p h = p
  settle_keeps refused r s p h = p

  -- Whatever becomes of the call.
  pub query_keeps :
      (stmt : Statement A) → Keeps P stmt → (s : Store) → P s.tables → P (query stmt s).1.tables
  unfolding query
  query_keeps stmt k s p =
      settle_keeps (s.fate s.calls) (stmt (s.clock s.calls) s.tables) (next s) p
        (k.at (s.clock s.calls) s.tables p)

  settle_tx_keeps :
      (f : Fate) (r : Result DbError (A × Tables)) (tx : Tx)
      → P tx.pending
      → Holds P r
      → P (settle_tx f r tx).1.pending
  settle_tx_keeps answered (ok (a, t)) tx p h = h
  settle_tx_keeps answered (err e) tx p h = p
  settle_tx_keeps unacked r tx p h = p
  settle_tx_keeps refused r tx p h = p

  pub TxKeeps-exec : (stmt : Statement A) → Keeps P stmt → TxKeeps P (exec stmt)
  unfolding exec
  TxKeeps-exec stmt k = record {
    at = λ tx p.
        settle_tx_keeps (tx.store.fate tx.store.calls) (stmt tx.started tx.pending) _ p
          (k.at tx.started tx.pending p);
    apart = λ tx. settle_tx_apart (tx.store.fate tx.store.calls) (stmt tx.started tx.pending) _;
  }

  pub TxKeeps-pure : (a : A) → TxKeeps P (pure a)
  TxKeeps-pure a = record { at = λ tx p. p; apart = λ tx. refl }

  pub TxKeeps-if :
      (b : Bool) (m n : Exec Tx DbError A)
      → TxKeeps P m
      → TxKeeps P n
      → TxKeeps P (λ tx. (if b then m else n) tx)
  TxKeeps-if true m n h k = h
  TxKeeps-if false m n h k = k

module _ {A B : Type 0} (P : Tables → Type 0) where
  continue_at :
      (f : A → Exec Tx DbError B) (r : Result DbError A) (tx : Tx)
      → ((a : A) → TxKeeps P (f a))
      → P tx.pending
      → P (continue r f tx).1.pending
  continue_at f (ok a) tx h p = (h a).at tx p
  continue_at f (err e) tx h p = p

  continue_apart :
      (f : A → Exec Tx DbError B) (r : Result DbError A) (tx : Tx)
      → ((a : A) → TxKeeps P (f a))
      → (continue r f tx).1.store.tables ≡ tx.store.tables
  continue_apart f (ok a) tx h = (h a).apart tx
  continue_apart f (err e) tx h = refl

  pub TxKeeps-bind :
      (m : Exec Tx DbError A) (f : A → Exec Tx DbError B)
      → TxKeeps P m
      → ((a : A) → TxKeeps P (f a))
      → TxKeeps P (m >>= f)
  TxKeeps-bind m f k h = record {
    at = λ tx p. continue_at f (m tx).0 (m tx).1 h (k.at tx p);
    apart = λ tx. continue_apart f (m tx).0 (m tx).1 h ∙ k.apart tx;
  }

module _ {A : Type 0} (P : Tables → Type 0) where
  finish_keeps :
      (r : Result DbError A) (tx : Tx) → P tx.pending → P tx.store.tables → P (finish r tx).1.tables
  finish_keeps (ok a) tx p q = commit_keeps (tx.store.fate tx.store.calls)
    where
      commit_keeps : (f : Fate) → P (commit f a tx).1.tables
      commit_keeps answered = p
      commit_keeps unacked = p
      commit_keeps refused = q
  finish_keeps (err e) tx p q = q

  start_keeps :
      (f : Fate) (body : Exec Tx DbError A) (s : Store)
      → TxKeeps P body
      → P s.tables
      → P (start f body s).1.tables
  start_keeps answered body s k p =
      let tx : Tx = record { store = next s; pending = s.tables; started = s.clock s.calls } in
      finish_keeps (body tx).0 (body tx).1 (k.at tx p) (rw (k.apart tx) p)
  start_keeps refused body s k p = p
  start_keeps unacked body s k p = p

  -- A transaction keeps `P`, whether it commits, rolls back or loses its connection.
  pub transaction_keeps :
      (body : Exec Tx DbError A)
      → TxKeeps P body
      → (s : Store) → P s.tables
      → P (transaction body s).1.tables
  unfolding transaction
  transaction_keeps body k s p = start_keeps (s.fate s.calls) body s k p
