-- ===== src/Protocol/SectorServer.antt =====
-- protocol/sector_server.go: the answers to blob requests, and the proofs of equivocation that are
-- taken. Sending does not change the state; what is sent is a result. Times are seconds since 1970.
pub mod Locking
pub mod Proofs
use fnd.Base.{
  ℕ, zero, suc, ◌+◌, ◌-◌, ◌*◌, ◌%◌, ◌≡◌, Bool, true, false, not, Option, none, some, List, [], ◌∷◌,
  ltb, ◌==◌, ◌&&◌, if◌then◌else◌, length, get_elem?, Outcome, ok, err, panicked, ◌>>=◌, ◌>>◌,
  reject_if,
}
use fnd.Base.Bytes.{bytes_dec}
use fnd.Base.GoMap.{Map}
use fnd.Blob.Consts.{Hash, Sector, max_sectors, zero_hash}
use fnd.Blob.Hash.{SectorHashes, payload_tip}
use fnd.Store.Types.{Name, Header, Signature, Time, EquivocationProof}
use fnd.Store.Interface.{DbError, failed, Database}
use fnd.Util.MultiLocker.{RefCounter, Ran, returns, panics, try_rlock, runlock}
use fnd.Protocol.Epoch.{u16_mod}
use fnd.Protocol.UpdateQueue.{BlobReq}
use fnd.Protocol.Updater.{within_week, is_set}
use fnd.Protocol.Validate.{Externals, ValidateError, validate_blob_update}

pub record BlobRes : Type 0 where
  pub name : Name
  pub epoch_height : ℕ
  pub payload_position : ℕ
  pub prev_hash : Hash
  pub reserved_root : Hash
  pub payload : List Sector
  pub signature : Signature

pub data Reply : Type 0 where
  nothing : Reply
  sends_proof : EquivocationProof → Reply
  sends_blob : BlobRes → Reply
  crashes : Reply

abbrev pub Locks : Type 0
Locks = Map Name RefCounter

-- `GetSectorHash` of store/headers.go. The index `len(hashes)` passes the check and is out of
-- range; above it the error that is wrapped is nil.
unfoldable pub get_sector_hash : Outcome DbError SectorHashes → ℕ → Outcome DbError Hash
get_sector_hash (err e) index = err e
get_sector_hash panicked index = panicked
get_sector_hash (ok hashes) index =
    if ltb (length hashes) index
    then ok zero_hash
    else elim (get_elem? hashes index) [ none ↦ panicked | some h ↦ ok h ]

-- What the cache, the blob store and the blob answer to one request: the sectors that are cached;
-- those that are read, if the blob opens and no read fails.
pub record Sources : Type 0 where
  pub cached : Option (List Sector)
  pub opens : Bool
  pub read : Option (List Sector)

-- `sendResponse`, which leaves the reserved root zero.
abbrev pub response : Header → BlobReq → Hash → List Sector → Reply
response header req prev_hash sectors = sends_blob (record {
  name = req.name;
  epoch_height = header.epoch_height;
  payload_position = req.sector_size;
  prev_hash = prev_hash;
  reserved_root = zero_hash;
  payload = sectors;
  signature = header.signature;
})

-- The sectors of the reply, if there is one.
unfoldable pub sectors_of : Sources → Option (List Sector)
sectors_of src = elim src.cached [
  | some sectors ↦ some sectors
  | none ↦ if src.opens then src.read else none
]

-- `RUnlock`, and the reply after it.
abbrev pub unlocked : Ran Name (Unit {0}) → Reply → Locks × Reply
unlocked (returns locks _) reply = (locks, reply)
unlocked panics reply = ([], crashes)

abbrev pub reply_with : Header → BlobReq → Hash → Option (List Sector) → Reply
reply_with header req prev_hash (some sectors) = response header req prev_hash sectors
reply_with header req prev_hash none = nothing

-- `onBlobReq` with the read lock held, from the hash before the requested sector on. Each of the
-- four paths after that hash calls RUnlock before its reply, and here the call stands once.
abbrev pub serve_locked : Header → BlobReq → Sources → Locks → Outcome DbError Hash → Locks × Reply
serve_locked header req src locks (err e) = (locks, nothing)
serve_locked header req src locks panicked = (locks, crashes)
serve_locked header req src locks (ok prev_hash) =
    unlocked (runlock bytes_dec req.name locks) (reply_with header req prev_hash (sectors_of src))

abbrev pub prev_hash_of : Outcome DbError SectorHashes → ℕ → Outcome DbError Hash
prev_hash_of hashes zero = ok zero_hash
prev_hash_of hashes (suc n) = get_sector_hash hashes n

abbrev pub with_lock :
    Header → BlobReq → Sources → Outcome DbError SectorHashes → Ran Name Bool → Locks × Reply
with_lock header req src hashes (returns locks true) =
    serve_locked header req src locks (prev_hash_of hashes req.sector_size)
with_lock header req src hashes (returns locks false) = (locks, nothing)
with_lock header req src hashes panics = ([], crashes)

abbrev pub proof_reply : Outcome DbError EquivocationProof → Reply
proof_reply (ok proof) = sends_proof proof
proof_reply (err e) = nothing
proof_reply panicked = crashes

-- `onBlobReq`
unfoldable pub on_blob_req :
    Outcome DbError Header
    → Outcome DbError EquivocationProof
    → Outcome DbError SectorHashes
    → Sources
    → Locks
    → BlobReq
    → Locks × Reply
unfolding get_sector_hash sectors_of
on_blob_req (err e) proof hashes src locks req = (locks, nothing)
on_blob_req panicked proof hashes src locks req = (locks, crashes)
on_blob_req (ok header) proof hashes src locks req =
    if ltb header.epoch_height req.epoch_height
    then (locks, nothing)
    else (if req.sector_size == max_sectors
        then (locks, proof_reply proof)
        else with_lock header req src hashes (try_rlock bytes_dec req.name locks))

pub data ProofError : Type 0 where
  unexpected_epoch_height banned already_equivocated remote_behind : ProofError
  unexpected_sector_size too_large local_invalid remote_invalid : ProofError
  db_error : DbError → ProofError

abbrev pub wrap {ℓ} : {A : Type ℓ} → Outcome DbError A → Outcome ProofError A
wrap (ok a) = ok a
wrap (err e) = err (db_error e)
wrap panicked = panicked

abbrev pub checked : ProofError → Outcome ValidateError (Unit {0}) → Outcome ProofError (Unit {0})
checked e (ok _) = ok tt
checked e (err _) = err e
checked e panicked = panicked

-- A transaction that fails is logged, and leaves the store.
abbrev pub or_same {ℓ} : {A : Type ℓ} → A → Outcome DbError A → A
or_same db (ok db') = db'
or_same db (err e) = db
or_same db panicked = db

module _ (x : Externals) (d : Database) where
  open d use {Db, get_header, get_header_ban, set_header_ban, set_equivocation_proof}

  -- The checks of `onEquivocationProof`.
  unfoldable pub check_proof : Db → ℕ → EquivocationProof → Outcome ProofError (Unit {0})
  check_proof db now msg = do
    reject_if (not (msg.local_epoch_height == msg.remote_epoch_height)) unexpected_epoch_height
    header ← wrap (get_header db msg.name)
    banned_at ← wrap (get_header_ban db msg.name)
    reject_if (is_set banned_at && within_week banned_at now) banned
    reject_if (is_set banned_at && (header.epoch_height == msg.remote_epoch_height))
        already_equivocated
    reject_if (ltb msg.remote_epoch_height header.epoch_height) remote_behind
    reject_if (not (msg.local_sector_size == msg.remote_payload_position)) unexpected_sector_size
    checked local_invalid (
        validate_blob_update x d db msg.name msg.local_epoch_height msg.local_sector_size
          msg.local_sector_tip_hash msg.local_reserved_root msg.local_signature)
    let sector_size = (msg.remote_payload_position + length msg.remote_payload) % u16_mod
    reject_if (ltb max_sectors sector_size) too_large
    checked remote_invalid (
        validate_blob_update x d db msg.name msg.remote_epoch_height sector_size
          (payload_tip x.blake2b msg.remote_prev_hash msg.remote_payload) msg.remote_reserved_root
          msg.remote_signature)

  abbrev pub set_ban : Db → ℕ → EquivocationProof → Db × Bool
  set_ban db now msg = elim (set_header_ban db msg.name now) [
    | ok db' ↦ (db', false)
    | err e ↦ (db, false)
    | panicked ↦ (db, true)
  ]

  -- What follows the checks: the store after it, and whether the handler panics. An error is
  -- logged.
  abbrev pub ban_with : Db → ℕ → EquivocationProof → Outcome ProofError (Unit {0}) → Db × Bool
  ban_with db now msg (err e) = (db, false)
  ban_with db now msg panicked = (db, true)
  ban_with db now msg (ok _) = elim (set_equivocation_proof db msg.name msg) [
    | ok db' ↦ set_ban db' now msg
    | err e ↦ set_ban db now msg
    | panicked ↦ (db, true)
  ]

  -- `onEquivocationProof`
  unfoldable pub on_equivocation_proof : Db → ℕ → EquivocationProof → Db × Bool
  on_equivocation_proof db now msg = ban_with db now msg (check_proof db now msg)
