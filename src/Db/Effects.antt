-- ===== src/Db/Effects.antt =====
-- What statements and transactions write, when they write anything.
use mathlib.Core.Path.{ap₂}
use go_fibe.Base.{ℤ, ◌≡◌, ◌∙◌, refl, ◌⊎◌, inl, inr, Option, none, some}
use go_fibe.Base.Exec.{Result, ok, err, Exec, ◌>>=◌, continue, pure}
use go_fibe.Strings.{GoString}
use go_fibe.Models.{Time}
use go_fibe.Db.Schema.{
  is_text, Tables, DbError, Statement, Uuid, cast_ok, with_uuid, with_text, with_int4, fits_int4,
}
use go_fibe.Db.Engine.{
  Store, Fate, answered, refused, unacked, Tx, settle, settle_tx, finish, commit, start, next,
  query, exec, transaction,
}
use go_fibe.Db.Keeps.{Holds, Holds-if}

abbrev pub Effect : Type 0
Effect = Time → Tables → Tables

-- A statement that returns has turned the tables into those of `f`.
pub record Does {A : Type 0} (f : Effect) (stmt : Statement A) : Type 0 where
  pub at : (now : Time) (t : Tables) → Holds (λ t'. t' ≡ f now t) (stmt now t)

abbrev pub Failed : {A : Type 0} → Result DbError A → Type 0
Failed (ok a) = ⊥
Failed (err e) = Unit

abbrev TxOutcome : {A : Type 0} → Effect → Tx → Result DbError A → Tx → Type 0
TxOutcome f tx (ok a) tx' = (tx'.pending ≡ f tx.started tx.pending) × (tx'.started ≡ tx.started)
TxOutcome f tx (err e) tx' = Unit

-- So has the body of a transaction, of what it has pending.
pub record TxDoes {A : Type 0} (f : Effect) (m : Exec Tx DbError A) : Type 0 where
  pub at : (tx : Tx) → TxOutcome f tx (m tx).0 (m tx).1
  pub apart : (tx : Tx) → (m tx).1.store.tables ≡ tx.store.tables

-- All or nothing: on success all of `f`, on failure all of it or none.
abbrev pub Atomic : {A : Type 0} → Tables → Tables → Result DbError A → Tables → Type 0
Atomic old new (ok a) t = t ≡ new
Atomic old new (err e) t = (t ≡ old) ⊎ (t ≡ new)

pub TxDoes-pure : {A : Type 0} (a : A) → TxDoes (λ now t. t) (pure a)
TxDoes-pure a = record { at = λ tx. (refl, refl); apart = λ tx. refl }

module _ {A : Type 0} (f : Effect) where
  Does-cast_ok :
      (o : Option GoString) (body : GoString → Statement A) (now : Time) (t : Tables)
      → ((id : GoString) → o ≡ some id → Does f (body id))
      → Holds (λ t'. t' ≡ f now t) (cast_ok o body now t)
  Does-cast_ok none body now t h = tt
  Does-cast_ok (some id) body now t h = (h id refl).at now t

  pub Does-with_uuid :
      ⦃u : Uuid⦄ (s : GoString) (body : GoString → Statement A)
      → ((id : GoString) → u.cast s ≡ some id → Does f (body id))
      → Does f (with_uuid s body)
  Does-with_uuid ⦃u⦄ s body h = record { at = λ now t. Does-cast_ok (u.cast s) body now t h }

  pub Does-with_text : (s : GoString) (body : Statement A) → Does f body → Does f (with_text s body)
  Does-with_text s body h = record {
    at = λ now t. Holds-if (λ t'. t' ≡ f now t) (is_text s) _ _ (λ _. h.at now t) (λ _. tt);
  }

  pub Does-with_int4 : (n : ℤ) (body : Statement A) → Does f body → Does f (with_int4 n body)
  Does-with_int4 n body h = record {
    at = λ now t. Holds-if (λ t'. t' ≡ f now t) (fits_int4 n) _ _ (λ _. h.at now t) (λ _. tt);
  }

  settle-Atomic :
      (fate : Fate) (r : Result DbError (A × Tables)) (s : Store) (new : Tables)
      → Holds (λ t'. t' ≡ new) r
      → Atomic s.tables new (settle fate r s).0 (settle fate r s).1.tables
  settle-Atomic answered (ok (a, t)) s new h = h
  settle-Atomic answered (err e) s new h = inl refl
  settle-Atomic unacked (ok (a, t)) s new h = inr h
  settle-Atomic unacked (err e) s new h = inl refl
  settle-Atomic refused r s new h = inl refl

  pub query-Atomic :
      (stmt : Statement A)
      → Does f stmt
      → (s : Store)
      → Atomic s.tables (f (s.clock s.calls) s.tables) (query stmt s).0 (query stmt s).1.tables
  unfolding query
  query-Atomic stmt d s =
      settle-Atomic (s.fate s.calls) (stmt (s.clock s.calls) s.tables) (next s) _
        (d.at (s.clock s.calls) s.tables)

  settle_tx_does :
      (fate : Fate) (r : Result DbError (A × Tables)) (tx : Tx)
      → Holds (λ t'. t' ≡ f tx.started tx.pending) r
      → TxOutcome f tx (settle_tx fate r tx).0 (settle_tx fate r tx).1
  settle_tx_does answered (ok (a, t)) tx h = (h, refl)
  settle_tx_does answered (err e) tx h = tt
  settle_tx_does unacked r tx h = tt
  settle_tx_does refused r tx h = tt

  settle_tx_apart :
      (fate : Fate) (r : Result DbError (A × Tables)) (tx : Tx)
      → TxOutcome f tx (settle_tx fate r tx).0 (settle_tx fate r tx).1
      → (settle_tx fate r tx).1.store.tables ≡ tx.store.tables
  settle_tx_apart answered (ok (a, t)) tx h = refl
  settle_tx_apart answered (err e) tx h = refl
  settle_tx_apart unacked r tx h = refl
  settle_tx_apart refused r tx h = refl

  pub TxDoes-exec : (stmt : Statement A) → Does f stmt → TxDoes f (exec stmt)
  unfolding exec
  TxDoes-exec stmt d = record {
    at = λ tx.
        settle_tx_does (tx.store.fate tx.store.calls) (stmt tx.started tx.pending)
          (record tx { store = next tx.store }) (d.at tx.started tx.pending);
    apart = λ tx.
        settle_tx_apart (tx.store.fate tx.store.calls) (stmt tx.started tx.pending)
          (record tx { store = next tx.store })
          (settle_tx_does (tx.store.fate tx.store.calls) (stmt tx.started tx.pending)
            (record tx { store = next tx.store }) (d.at tx.started tx.pending));
  }

  finish-Atomic :
      (r : Result DbError A) (tx0 tx : Tx)
      → TxOutcome f tx0 r tx
      → tx.store.tables ≡ tx0.store.tables
      → Atomic tx0.store.tables (f tx0.started tx0.pending) (finish r tx).0 (finish r tx).1.tables
  finish-Atomic (ok a) tx0 tx (p, q) same = committed (tx.store.fate tx.store.calls)
    where
      committed :
          (fate : Fate)
          → Atomic tx0.store.tables
              (f tx0.started tx0.pending)
              (commit fate a tx).0
              (commit fate a tx).1.tables
      committed answered = p
      committed unacked = inr p
      committed refused = inl same
  finish-Atomic (err e) tx0 tx h same = inl same

  start-Atomic :
      (fate : Fate) (body : Exec Tx DbError A) (s : Store)
      → TxDoes f body
      → Atomic s.tables
          (f (s.clock s.calls) s.tables)
          (start fate body s).0
          (start fate body s).1.tables
  start-Atomic answered body s d =
      let tx : Tx = record { store = next s; pending = s.tables; started = s.clock s.calls } in
      finish-Atomic (body tx).0 tx (body tx).1 (d.at tx) (d.apart tx)
  start-Atomic refused body s d = inl refl
  start-Atomic unacked body s d = inl refl

  pub transaction-Atomic :
      (body : Exec Tx DbError A)
      → TxDoes f body
      → (s : Store)
      → Atomic s.tables
          (f (s.clock s.calls) s.tables)
          (transaction body s).0
          (transaction body s).1.tables
  unfolding transaction
  transaction-Atomic body d s = start-Atomic (s.fate s.calls) body s d

module _ {A B : Type 0} (f g : Effect) where
  continue_does :
      (k : A → Exec Tx DbError B) (r : Result DbError A) (tx0 tx : Tx)
      → ((a : A) → TxDoes g (k a))
      → TxOutcome f tx0 r tx
      → TxOutcome (λ now t. g now (f now t)) tx0 (continue r k tx).0 (continue r k tx).1
  continue_does k (err e) tx0 tx h o = tt
  continue_does k (ok a) tx0 tx h (p, q) = moved (k a tx).0 (k a tx).1 ((h a).at tx)
    where
      moved :
          (r : Result DbError B) (tx' : Tx)
          → TxOutcome g tx r tx'
          → TxOutcome (λ now t. g now (f now t)) tx0 r tx'
      moved (ok b) tx' (p', q') = (p' ∙ ap₂ g q p, q' ∙ q)
      moved (err e) tx' o = tt

  continue_apart :
      (k : A → Exec Tx DbError B) (r : Result DbError A) (tx : Tx)
      → ((a : A) → TxDoes g (k a))
      → (continue r k tx).1.store.tables ≡ tx.store.tables
  continue_apart k (ok a) tx h = (h a).apart tx
  continue_apart k (err e) tx h = refl

  pub TxDoes-bind :
      (m : Exec Tx DbError A) (k : A → Exec Tx DbError B)
      → TxDoes f m
      → ((a : A) → TxDoes g (k a))
      → TxDoes (λ now t. g now (f now t)) (m >>= k)
  TxDoes-bind m k d h = record {
    at = λ tx. continue_does k (m tx).0 tx (m tx).1 h (d.at tx);
    apart = λ tx. continue_apart k (m tx).0 (m tx).1 h ∙ d.apart tx;
  }
