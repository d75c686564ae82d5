-- ===== src/Store/Leveldb.antt =====
-- The database of github.com/syndtr/goleveldb, as the package store uses it, and what its
-- documentation promises while the disk does not fail. Keys and values are bytes.
use fnd.Base.{
  Outcome, ok, err, Option, none, some, Bool, true, false, List, [], ◌∷◌, ◌≡◌, ite, All, ◌⊎◌,
}
use fnd.Base.Bytes.{Bytes, bytes_dec}
use fnd.Base.Text.{strip_prefix}
use fnd.Base.Stateful.{Stateful}
use fnd.Store.Interface.{DbError, not_found}

-- `prefix_values` and `tx_prefix_keys` are the iterators over util.BytesPrefix, and `range_values`
-- the one over a util.Range, with the pairs in the order of their keys.
pub record Leveldb : Type 1 where
  pub Db : Type 0
  pub Tx : Type 0
  pub get : Db → Bytes → Outcome DbError Bytes
  pub has : Db → Bytes → Outcome DbError Bool
  pub prefix_values : Db → Bytes → List Bytes
  pub range_values : Db → Bytes → Bytes → List Bytes
  pub open_transaction : Db → Outcome DbError Tx
  pub tx_get : Tx → Bytes → Outcome DbError Bytes
  pub tx_has : Tx → Bytes → Outcome DbError Bool
  pub tx_prefix_keys : Tx → Bytes → List Bytes
  pub tx_put : Bytes → Bytes → Stateful Tx DbError (Unit {0})
  pub tx_delete : Bytes → Stateful Tx DbError (Unit {0})
  pub commit : Tx → Outcome DbError (Unit {0}) × Db

-- A key that is missing is the error ErrNotFound.
abbrev pub found : Option Bytes → Outcome DbError Bytes
found none = err not_found
found (some v) = ok v

abbrev pub is_some {ℓ} : {A : Type ℓ} → Option A → Bool
is_some none = false
is_some (some a) = true

abbrev pub In : Bytes → List Bytes → Type 0
In k [] = ⊥
In k (j ∷ js) = (k ≡ j) ⊎ In k js

abbrev pub HasPrefix : Bytes → Bytes → Type 0
HasPrefix p k = is_some (strip_prefix p k) ≡ true

-- The disk does not fail: `stored` is what the database holds, `pending` what a transaction sees.
pub record IsHealthy (L : Leveldb) : Type 0 where
  pub stored : L.Db → Bytes → Option Bytes
  pub pending : L.Tx → Bytes → Option Bytes
  pub begin : L.Db → L.Tx
  pub get_lem : (d : L.Db) (k : Bytes) → L.get d k ≡ found (stored d k)
  pub has_lem : (d : L.Db) (k : Bytes) → L.has d k ≡ ok (is_some (stored d k))
  pub open_lem : (d : L.Db) → L.open_transaction d ≡ ok (begin d)
  pub pending-begin : (d : L.Db) (k : Bytes) → pending (begin d) k ≡ stored d k
  pub tx_get_lem : (t : L.Tx) (k : Bytes) → L.tx_get t k ≡ found (pending t k)
  pub tx_has_lem : (t : L.Tx) (k : Bytes) → L.tx_has t k ≡ ok (is_some (pending t k))
  pub put_succeeds : (t : L.Tx) (k v : Bytes) → (L.tx_put k v t).0 ≡ ok tt
  pub pending-put :
      (t : L.Tx) (k v j : Bytes)
      → pending (L.tx_put k v t).1 j ≡ ite (bytes_dec k j) (some v) (pending t j)
  pub delete_succeeds : (t : L.Tx) (k : Bytes) → (L.tx_delete k t).0 ≡ ok tt
  pub pending-delete :
      (t : L.Tx) (k j : Bytes)
      → pending (L.tx_delete k t).1 j ≡ ite (bytes_dec k j) none (pending t j)
  pub keys_sound : (t : L.Tx) (p : Bytes) → All (HasPrefix p) (L.tx_prefix_keys t p)
  pub keys_complete :
      (t : L.Tx) (p k v : Bytes)
      → HasPrefix p k
      → pending t k ≡ some v
      → In k (L.tx_prefix_keys t p)
  pub commit_succeeds : (t : L.Tx) → (L.commit t).0 ≡ ok tt
  pub stored-commit : (t : L.Tx) (k : Bytes) → stored (L.commit t).1 k ≡ pending t k
