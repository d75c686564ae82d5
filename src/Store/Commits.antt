-- ===== src/Store/Commits.antt =====
-- store/store.go: what WithTx leaves in the database, on a disk that does not fail.
use fnd.Base.{Outcome, ok, err, panicked, ◌≡◌, refl}
use fnd.Base.Bytes.{Bytes}
use fnd.Store.Interface.{DbError}
use fnd.Store.Leveldb.{Leveldb, IsHealthy}
use fnd.Store.Transactions.{TxCb, with_tx}
use fnd.Store.Views.{with_tx-ends, with_tx-fails, with_tx-panics}

module _ (L : Leveldb) (H : IsHealthy L) where
  -- What a database answers after a callback: the values of the transaction, or those from before
  -- it if the callback panicked.
  abbrev pub Leaves : L.Db → Outcome DbError (Unit {0}) → L.Tx → L.Db → Type 0
  Leaves d (ok u) t e = (k : Bytes) → L.get e k ≡ L.tx_get t k
  Leaves d (err x) t e = (k : Bytes) → L.get e k ≡ L.tx_get t k
  Leaves d panicked t e = e ≡ d

  committed : (t : L.Tx) (k : Bytes) → L.get (L.commit t).1 k ≡ L.tx_get t k
  committed t k = rw (H.get_lem, H.stored-commit t k) (rw (H.tx_get_lem t k) refl)

  ends :
      (d : L.Db) (cb : TxCb L) (r : Outcome DbError (Unit {0})) (t : L.Tx)
      → cb (H.begin d) ≡ (r, t)
      → ((with_tx L d cb).0 ≡ r) × Leaves d r t (with_tx L d cb).1
  ends d cb (ok tt) t e = rw (with_tx-ends L H d cb t e) (refl, committed t)
  ends d cb (err x) t e = rw (with_tx-fails L H d cb t x e) (refl, committed t)
  ends d cb panicked t e = rw (with_tx-panics L H d cb t e) (refl, refl)

  -- WithTx returns what its callback returned. The database is left with every value that the
  -- callback had in its transaction, also where the callback returned an error; only a panic leaves
  -- it as it was.
  pub with_tx-Leaves :
      (d : L.Db) (cb : TxCb L)
      → ((with_tx L d cb).0 ≡ (cb (H.begin d)).0)
        × Leaves d (cb (H.begin d)).0 (cb (H.begin d)).1 (with_tx L d cb).1
  with_tx-Leaves d cb = ends d cb (cb (H.begin d)).0 (cb (H.begin d)).1 refl
