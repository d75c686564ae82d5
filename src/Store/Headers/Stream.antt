-- ===== src/Store/Headers/Stream.antt =====
-- store/headers.go: BlobInfo and its streams.
use fnd.Base.{ℕ, Option, none, some, List, [], ◌∷◌, Outcome, ok, err, panicked}
use fnd.Base.Bytes.{Bytes}
use fnd.Base.Text.{codes, hex_encode}
use fnd.Blob.Consts.{Hash}
use fnd.Store.Types.{Name, Time, Signature, PublicKey, Header, NameInfo}
use fnd.Store.Interface.{DbError}
use fnd.Store.Keys.{header_data_prefix}
use fnd.Store.Json.{JsonText, Document, text, number, moment, read_header}
use fnd.Store.Leveldb.{Leveldb}
use fnd.Store.Headers.{get_header_ban}
use fnd.Store.Names.{bump_last, get_name_info}

pub record BlobInfo : Type 0 where
  pub name : Name
  pub public_key : PublicKey
  pub import_height : ℕ
  pub epoch_height : ℕ
  pub sector_size : ℕ
  pub sector_tip_hash : Hash
  pub signature : Signature
  pub reserved_root : Hash
  pub received_at : Time
  pub banned_at : Time

-- `(*BlobInfo).MarshalJSON`
unfoldable pub blob_info_document : BlobInfo → Document
blob_info_document b =
    (codes "name", text b.name)
    ∷ ((codes "public_key", text (hex_encode b.public_key))
        ∷ ((codes "import_height", number b.import_height)
            ∷ ((codes "epoch_height", number b.epoch_height)
                ∷ ((codes "sector_size", number b.sector_size)
                    ∷ ((codes "sector_tip_hash", text (hex_encode b.sector_tip_hash))
                        ∷ ((codes "signature", text (hex_encode b.signature))
                            ∷ ((codes "reserved_root", text (hex_encode b.reserved_root))
                                ∷ ((codes "received_at", moment b.received_at)
                                    ∷ ((codes "banned_at", moment b.banned_at) ∷ [])))))))))

abbrev pub info_of :
    Header → Outcome DbError NameInfo → Outcome DbError Time → Outcome DbError BlobInfo
info_of h (ok n) (ok banned_at) = ok (record {
  name = h.name;
  public_key = n.public_key;
  import_height = n.import_height;
  epoch_height = h.epoch_height;
  sector_size = h.sector_size;
  sector_tip_hash = h.sector_tip_hash;
  signature = h.signature;
  reserved_root = h.reserved_root;
  received_at = h.epoch_start_at;
  banned_at = banned_at;
})
info_of h (ok n) (err e) = err e
info_of h (ok n) panicked = panicked
info_of h (err e) ban = err e
info_of h panicked ban = panicked

abbrev pub with_rest {ℓ} :
    {A : Type ℓ} {R : Type ℓ} → Outcome DbError A → R → Outcome DbError (Option A × R)
with_rest (ok a) rest = ok (some a, rest)
with_rest (err e) rest = err e
with_rest panicked rest = panicked

module _ (L : Leveldb) (J : JsonText) (parse_pub_key : Bytes → Option PublicKey) where
  abbrev joined : L.Db → Outcome DbError Header → Outcome DbError BlobInfo
  joined db (ok h) =
      info_of h (get_name_info L J parse_pub_key db h.name) (get_header_ban L db h.name)
  joined db (err e) = err e
  joined db panicked = panicked

  -- `(*BlobInfoStream).Next`: `none` at the end.
  unfoldable pub next_blob_info : L.Db → List Bytes → Outcome DbError (Option BlobInfo × List Bytes)
  next_blob_info db [] = ok (none, [])
  next_blob_info db (b ∷ rest) = with_rest (joined db (read_header J b)) rest

module _ (L : Leveldb) where
  -- `StreamBlobInfo`: the values that the iterator will pass.
  unfoldable pub stream_blob_info : L.Db → Name → List Bytes
  stream_blob_info db [] = L.prefix_values db (header_data_prefix [])
  stream_blob_info db (c ∷ start) =
      L.range_values db (bump_last (header_data_prefix ((c ∷ start) ∷ [])))
        (header_data_prefix ((255 ∷ []) ∷ []))
