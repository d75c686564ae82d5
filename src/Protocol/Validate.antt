-- ===== src/Protocol/Validate.antt =====
-- protocol/syncer.go: `validateBlobUpdate`, with `SealHash` of blob/seal.go. The hash function, the
-- field encodings of dwire, the name check of handshake and secp256k1 are the record `Externals`.
use fnd.Base.{
  ℕ, ◌≡◌, refl, ◌++◌, Bool, true, false, not, [], ◌∷◌, Outcome, ok, err, panicked, ◌>>=◌, ◌>>◌,
  reject_if, arith,
}
use fnd.Base.Bytes.{Bytes}
use fnd.Blob.Consts.{Hash}
use fnd.Store.Types.{Name, Signature, PublicKey, NameInfo}
use fnd.Store.Interface.{DbError, Database}

pub record Externals : Type 0 where
  pub blake2b : Bytes → Hash
  pub encode_name : Name → Bytes
  pub encode_u16 : ℕ → Bytes
  pub validate_name : Name → Bool
  pub verify_sig_pub : PublicKey → Signature → Hash → Bool

pub data ValidateError : Type 0 where
  name_invalid name_banned invalid_payload_signature : ValidateError
  db_error : DbError → ValidateError

abbrev pub wrap {ℓ} : {A : Type ℓ} → Outcome DbError A → Outcome ValidateError A
wrap (ok a) = ok a
wrap (err e) = err (db_error e)
wrap panicked = panicked

-- The bytes of "FNBLOB".
abbrev pub seal_prefix : Bytes
seal_prefix = 70 ∷ 78 ∷ 66 ∷ 76 ∷ 79 ∷ 66 ∷ []

-- `SealHash`
unfoldable pub seal_hash : Externals → Name → ℕ → ℕ → Hash → Hash → Hash
seal_hash x name epoch_height sector_size sector_tip_hash reserved_root = x.blake2b (
    seal_prefix
    ++ x.encode_name name
    ++ x.encode_u16 epoch_height
    ++ x.encode_u16 sector_size
    ++ sector_tip_hash
    ++ reserved_root)

module _ (x : Externals) (d : Database) where
  open d use {Db, name_is_banned, get_name_info}

  -- `validateBlobUpdate`
  unfoldable pub validate_blob_update :
      Db → Name → ℕ → ℕ → Hash → Hash → Signature → Outcome ValidateError (Unit {0})
  validate_blob_update db name epoch_height sector_size sector_tip_hash reserved_root sig = do
    reject_if (not (x.validate_name name)) name_invalid
    banned ← wrap (name_is_banned db name)
    reject_if banned name_banned
    info ← wrap (get_name_info db name)
    reject_if
        (not (
          x.verify_sig_pub info.public_key sig
            (seal_hash x name epoch_height sector_size sector_tip_hash reserved_root)))
        invalid_payload_signature

  -- The owner of the name signed these, and the name is neither invalid nor banned.
  pub record IsSigned (db : Db) (name : Name) (epoch_height sector_size : ℕ)
      (tip reserved_root : Hash) (sig : Signature) : Type 0 where
    pub info : NameInfo
    pub known : get_name_info db name ≡ ok info
    pub allowed : name_is_banned db name ≡ ok false
    pub valid : x.validate_name name ≡ true
    pub verified :
        x.verify_sig_pub info.public_key sig
          (seal_hash x name epoch_height sector_size tip reserved_root)
        ≡ true

  IsSigned-by :
      (db : Db) (name : Name) (e n : ℕ) (tip root : Hash) (sig : Signature)
      (o : Outcome DbError NameInfo)
      → get_name_info db name ≡ o
      → validate_blob_update db name e n tip root sig ≡ ok tt
      → IsSigned db name e n tip root sig
  unfolding validate_blob_update
  IsSigned-by db name e n tip root sig (ok info) g h = record {
    info = info;
    known = g;
    allowed = ground arith;
    valid = ground arith;
    verified = ground arith;
  }
  IsSigned-by db name e n tip root sig (err f) g h = absurd (ground arith)
  IsSigned-by db name e n tip root sig panicked g h = absurd (ground arith)

  pub validate_blob_update-IsSigned :
      (db : Db) (name : Name) (e n : ℕ) (tip root : Hash) (sig : Signature)
      → validate_blob_update db name e n tip root sig ≡ ok tt
      → IsSigned db name e n tip root sig
  validate_blob_update-IsSigned db name e n tip root sig h =
      IsSigned-by db name e n tip root sig (get_name_info db name) refl h

  pub IsSigned-validate_blob_update :
      (db : Db) (name : Name) (e n : ℕ) (tip root : Hash) (sig : Signature)
      → IsSigned db name e n tip root sig
      → validate_blob_update db name e n tip root sig ≡ ok tt
  unfolding validate_blob_update
  IsSigned-validate_blob_update db name e n tip root sig s =
      rw (s.valid, s.allowed, s.known) (rw (s.verified) refl)
