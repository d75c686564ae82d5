-- ===== src/Store/Headers.antt =====
-- store/headers.go: the headers of the blobs, their count, their sector hashes and their bans. A
-- time is seconds since 1970; what time.Now answers is the argument `now`.

pub mod Runs
pub mod Readback
pub mod Stream
use fnd.Base.{
  ℕ, zero, suc, ◌+◌, Bool, true, false, not, Option, none, some, List, [], ◌∷◌, Outcome, ok, err,
  panicked, if◌then◌else◌, ltb, length, get_elem?,
}
use fnd.Base.Bytes.{Bytes}
use fnd.Base.Stateful.{Stateful, continue, ◌>>=◌, ◌>>◌, pure, lift}
use fnd.Blob.Hash.{SectorHashes, CodecError, encode, decode}
use fnd.Blob.Consts.{Hash}
use fnd.Store.Types.{Name, Time, Header}
use fnd.Store.Interface.{DbError, not_found, failed}
use fnd.Store.Keys.{
  header_count_key, header_sector_hashes_prefix, header_ban_prefix, header_data_prefix,
  headers_prefix,
}
use fnd.Store.Ints.{must_encode_int, must_decode_int}
use fnd.Store.Json.{JsonText, header_document, must_marshal_json, read_header}
use fnd.Store.Leveldb.{Leveldb}
use fnd.Store.Transactions.{with_tx}

-- A count that is missing is zero.
abbrev pub int_or_zero : Outcome DbError Bytes → Outcome DbError ℕ
int_or_zero (ok res) = must_decode_int res
int_or_zero (err not_found) = ok 0
int_or_zero (err failed) = err failed
int_or_zero panicked = panicked

abbrev pub then_read {ℓ} :
    {A : Type ℓ} → Outcome DbError Bytes → (Bytes → Outcome DbError A) → Outcome DbError A
then_read (ok b) f = f b
then_read (err e) f = err e
then_read panicked f = panicked

abbrev pub decoded : Outcome CodecError SectorHashes → Outcome DbError SectorHashes
decoded (ok s) = ok s
decoded (err e) = panicked
decoded panicked = panicked

abbrev pub as_ban : Outcome DbError ℕ → Outcome DbError Time
as_ban (ok t) = ok (some t)
as_ban (err e) = err e
as_ban panicked = panicked

abbrev pub ban_if : Outcome DbError Bool → Outcome DbError Bytes → Outcome DbError Time
ban_if (ok true) res = as_ban (then_read res must_decode_int)
ban_if (ok false) res = ok none
ban_if (err e) res = err e
ban_if panicked res = panicked

module _ (L : Leveldb) where
  -- `GetHeaderCount`
  unfoldable pub get_header_count : L.Db → Outcome DbError ℕ
  get_header_count db = int_or_zero (L.get db header_count_key)

  -- `IncrementHeaderCount`, under its mutex.
  unfoldable pub increment_header_count : Stateful L.Tx DbError (Unit {0})
  increment_header_count tx =
      continue (int_or_zero (L.tx_get tx header_count_key))
        (λ count. L.tx_put header_count_key (must_encode_int (count + 1))) tx

  -- `GetSectorHashes`: hashes that are cut short panic.
  unfoldable pub get_sector_hashes : L.Db → Name → Outcome DbError SectorHashes
  get_sector_hashes db name =
      then_read (L.get db (header_sector_hashes_prefix (name ∷ []))) (λ b. decoded (decode b))

  -- `GetHeaderBan`
  unfoldable pub get_header_ban : L.Db → Name → Outcome DbError Time
  get_header_ban db name =
      ban_if (L.has db (header_ban_prefix (name ∷ []))) (L.get db (header_ban_prefix (name ∷ [])))

  abbrev pub or_now : ℕ → Time → ℕ
  or_now now none = now
  or_now now (some at) = at

  -- `SetHeaderBan`
  unfoldable pub set_header_ban : ℕ → Name → Time → Stateful L.Tx DbError (Unit {0})
  set_header_ban now name at =
      L.tx_put (header_ban_prefix (name ∷ [])) (must_encode_int (or_now now at))

  -- `TruncateHeaderName`: the hashes, the ban and the count stay.
  unfoldable pub truncate_header_name : L.Db → Name → Outcome DbError (Unit {0}) × L.Db
  truncate_header_name db name = with_tx L db (L.tx_delete (header_data_prefix (name ∷ [])))

  -- The loop over an iterator that deletes every key.
  unfoldable pub delete_keys : List Bytes → Stateful L.Tx DbError (Unit {0})
  delete_keys [] = pure tt
  delete_keys (k ∷ ks) = do L.tx_delete k; delete_keys ks

  -- `TruncateHeaderStore`
  unfoldable pub truncate_header_store : L.Db → Outcome DbError (Unit {0}) × L.Db
  truncate_header_store db =
      with_tx L db (λ tx. delete_keys (L.tx_prefix_keys tx (headers_prefix [])) tx)

  module _ (J : JsonText) where
    -- `GetHeader`
    unfoldable pub get_header : L.Db → Name → Outcome DbError Header
    get_header db name = then_read (L.get db (header_data_prefix (name ∷ []))) (read_header J)

    -- `SetHeaderTx`
    unfoldable pub set_header_tx : Header → SectorHashes → Stateful L.Tx DbError (Unit {0})
    set_header_tx header sector_hashes = do
      exists ← λ tx. (L.tx_has tx (header_data_prefix (header.name ∷ [])), tx)
      L.tx_put (header_sector_hashes_prefix (header.name ∷ [])) (encode sector_hashes)
      tree ← lift (must_marshal_json J (header_document header))
      L.tx_put (header_data_prefix (header.name ∷ [])) tree
      if exists then pure tt else increment_header_count
