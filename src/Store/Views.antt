-- ===== src/Store/Views.antt =====
-- A healthy leveldb read key by key, after a put, a delete and a commit.
use fnd.Base.{Option, none, some, ok, err, panicked, ◌≡◌, ◌≢◌, ◌∙◌, refl, ap, if_pos, if_neg}
use fnd.Base.Bytes.{Bytes, bytes_dec}
use fnd.Store.Interface.{DbError}
use fnd.Store.Keys.{Key, key_bytes, key_bytes-ne}
use fnd.Store.Leveldb.{Leveldb, IsHealthy, found, is_some}
use fnd.Store.Transactions.{TxCb, with_tx, finish}

module _ (L : Leveldb) (H : IsHealthy L) where
  -- What a database and a transaction hold under a key.
  unfoldable pub at : L.Db → Key → Option Bytes
  at d k = H.stored d (key_bytes k)

  unfoldable pub tx_at : L.Tx → Key → Option Bytes
  tx_at t k = H.pending t (key_bytes k)

  pub after_put : Key → Bytes → L.Tx → L.Tx
  after_put k v t = (L.tx_put (key_bytes k) v t).1

  pub after_delete : Key → L.Tx → L.Tx
  after_delete k t = (L.tx_delete (key_bytes k) t).1

  pub get-at : (d : L.Db) (k : Key) → L.get d (key_bytes k) ≡ found (at d k)
  unfolding at
  get-at d k = H.get_lem d (key_bytes k)

  pub has-at : (d : L.Db) (k : Key) → L.has d (key_bytes k) ≡ ok (is_some (at d k))
  unfolding at
  has-at d k = H.has_lem d (key_bytes k)

  pub tx_get-at : (t : L.Tx) (k : Key) → L.tx_get t (key_bytes k) ≡ found (tx_at t k)
  unfolding tx_at
  tx_get-at t k = H.tx_get_lem t (key_bytes k)

  pub tx_has-at : (t : L.Tx) (k : Key) → L.tx_has t (key_bytes k) ≡ ok (is_some (tx_at t k))
  unfolding tx_at
  tx_has-at t k = H.tx_has_lem t (key_bytes k)

  pub put_runs :
      (t : L.Tx) (k : Key) (v : Bytes) → L.tx_put (key_bytes k) v t ≡ (ok tt, after_put k v t)
  unfolding after_put
  put_runs t k v = λ i. (H.put_succeeds t (key_bytes k) v i, (L.tx_put (key_bytes k) v t).1)

  pub delete_runs : (t : L.Tx) (k : Key) → L.tx_delete (key_bytes k) t ≡ (ok tt, after_delete k t)
  unfolding after_delete
  delete_runs t k = λ i. (H.delete_succeeds t (key_bytes k) i, (L.tx_delete (key_bytes k) t).1)

  pub tx_at-put_self : (t : L.Tx) (k : Key) (v : Bytes) → tx_at (after_put k v t) k ≡ some v
  unfolding tx_at after_put
  tx_at-put_self t k v =
      H.pending-put t (key_bytes k) v (key_bytes k)
      ∙ if_pos (bytes_dec (key_bytes k) (key_bytes k)) refl _ _

  pub tx_at-put_other :
      (t : L.Tx) (k j : Key) (v : Bytes) → k ≢ j → tx_at (after_put k v t) j ≡ tx_at t j
  unfolding tx_at after_put
  tx_at-put_other t k j v h =
      H.pending-put t (key_bytes k) v (key_bytes j)
      ∙ if_neg (bytes_dec (key_bytes k) (key_bytes j)) (key_bytes-ne k j h) _ _

  pub tx_at-delete_self : (t : L.Tx) (k : Key) → tx_at (after_delete k t) k ≡ none
  unfolding tx_at after_delete
  tx_at-delete_self t k =
      H.pending-delete t (key_bytes k) (key_bytes k)
      ∙ if_pos (bytes_dec (key_bytes k) (key_bytes k)) refl _ _

  pub tx_at-delete_other : (t : L.Tx) (k j : Key) → k ≢ j → tx_at (after_delete k t) j ≡ tx_at t j
  unfolding tx_at after_delete
  tx_at-delete_other t k j h =
      H.pending-delete t (key_bytes k) (key_bytes j)
      ∙ if_neg (bytes_dec (key_bytes k) (key_bytes j)) (key_bytes-ne k j h) _ _

  pub tx_at-begin : (d : L.Db) (k : Key) → tx_at (H.begin d) k ≡ at d k
  unfolding tx_at at
  tx_at-begin d k = H.pending-begin d (key_bytes k)

  pub at-commit : (t : L.Tx) (k : Key) → at (L.commit t).1 k ≡ tx_at t k
  unfolding tx_at at
  at-commit t k = H.stored-commit t (key_bytes k)

  -- A callback that ends without a panic is committed with what it returned.
  pub with_tx-ends :
      (d : L.Db) (cb : TxCb L) (t : L.Tx)
      → cb (H.begin d) ≡ (ok tt, t)
      → with_tx L d cb ≡ (ok tt, (L.commit t).1)
  unfolding with_tx
  with_tx-ends d cb t e = rw (H.open_lem d) (ap (λ p. finish L d p.0 p.1) e)

  pub with_tx-fails :
      (d : L.Db) (cb : TxCb L) (t : L.Tx) (e : DbError)
      → cb (H.begin d) ≡ (err e, t)
      → with_tx L d cb ≡ (err e, (L.commit t).1)
  unfolding with_tx
  with_tx-fails d cb t e q = rw (H.open_lem d) (ap (λ p. finish L d p.0 p.1) q)

  pub with_tx-panics :
      (d : L.Db) (cb : TxCb L) (t : L.Tx)
      → cb (H.begin d) ≡ (panicked, t)
      → with_tx L d cb ≡ (panicked, d)
  unfolding with_tx
  with_tx-panics d cb t q = rw (H.open_lem d) (ap (λ p. finish L d p.0 p.1) q)
