-- ===== src/Store/Types.antt =====
-- store/headers.go, naming.go, peers.go and wire/equivocation_proof.go: the records that are
-- stored. Times are seconds since 1970, and the zero time.Time is `none`.
use fnd.Base.{ℕ, Option, List, Bool}
use fnd.Base.Bytes.{Bytes}
use fnd.Blob.Consts.{Hash, Sector}

abbrev pub Name : Type 0
Name = Bytes

abbrev pub Signature : Type 0
Signature = Bytes

-- A compressed secp256k1 key.
abbrev pub PublicKey : Type 0
PublicKey = Bytes

abbrev pub Time : Type 0
Time = Option ℕ

pub record Header : Type 0 where
  pub name : Name
  pub epoch_height : ℕ
  pub sector_size : ℕ
  pub sector_tip_hash : Hash
  pub signature : Signature
  pub reserved_root : Hash
  pub epoch_start_at : Time

pub record NameInfo : Type 0 where
  pub name : Name
  pub public_key : PublicKey
  pub import_height : ℕ

pub record EquivocationProof : Type 0 where
  pub name : Name
  pub remote_epoch_height : ℕ
  pub remote_payload_position : ℕ
  pub remote_prev_hash : Hash
  pub remote_reserved_root : Hash
  pub remote_payload : List Sector
  pub remote_signature : Signature
  pub local_epoch_height : ℕ
  pub local_sector_size : ℕ
  pub local_sector_tip_hash : Hash
  pub local_reserved_root : Hash
  pub local_signature : Signature

-- The bans and the whitelist are kept under keys of their own.
pub record Peer : Type 0 where
  pub id : Hash
  pub ip : Bytes
  pub last_seen : Time
  pub verify : Bool
  pub inbound_banned_until : Time
  pub outbound_banned_until : Time
  pub whitelisted : Bool
