-- ===== src/Store/Interface.antt =====
-- What the protocol asks of the store: reads that may fail, and writes in a transaction of their
-- own that may fail. A proof that was stored is read as its bytes.
use fnd.Base.{ℕ, Bool, Outcome}
use fnd.Blob.Hash.{SectorHashes}
use fnd.Base.Bytes.{Bytes}
use fnd.Store.Types.{Name, Time, Header, NameInfo, EquivocationProof}

pub data DbError : Type 0 where
  not_found failed : DbError

pub record Database : Type 1 where
  pub Db : Type 0
  pub get_initial_import_complete : Db → Outcome DbError Bool
  pub get_last_name_import_height : Db → Outcome DbError ℕ
  pub get_name_info : Db → Name → Outcome DbError NameInfo
  pub name_is_banned : Db → Name → Outcome DbError Bool
  pub get_header : Db → Name → Outcome DbError Header
  pub get_sector_hashes : Db → Name → Outcome DbError SectorHashes
  pub get_header_ban : Db → Name → Outcome DbError Time
  pub get_equivocation_proof : Db → Name → Outcome DbError Bytes
  pub set_header : Db → Header → SectorHashes → Outcome DbError Db
  pub set_header_ban : Db → Name → ℕ → Outcome DbError Db
  pub set_equivocation_proof : Db → Name → EquivocationProof → Outcome DbError Db
