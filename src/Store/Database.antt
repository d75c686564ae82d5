-- ===== src/Store/Database.antt =====
-- The interface that the protocol takes, filled by the functions of the package store. A write runs
-- in a transaction of its own; after an error its caller sees no database.
use fnd.Base.{Option, some, Outcome, ok, err, panicked}
use fnd.Base.Bytes.{Bytes}
use fnd.Store.Types.{PublicKey, EquivocationProof}
use fnd.Store.Interface.{DbError, Database}
use fnd.Store.Json.{JsonText}
use fnd.Store.Leveldb.{Leveldb}
use fnd.Store.Transactions.{with_tx}
use fnd.Store.Headers.{get_header, get_sector_hashes, get_header_ban, set_header_tx, set_header_ban}
use fnd.Store.Names.{get_initial_import_complete, get_last_name_import_height, get_name_info}
use fnd.Store.Moderation.{name_is_banned, get_equivocation_proof, set_equivocation_proof_tx}

abbrev pub written_db {ℓ} : {D : Type ℓ} → Outcome DbError (Unit {0}) × D → Outcome DbError D
written_db (ok u, d) = ok d
written_db (err e, d) = err e
written_db (panicked, d) = panicked

-- `encode_proof` is Encode of wire.EquivocationProof, and `now` the
-- clock that SetHeaderBan reads for a zero time.
module _ (L : Leveldb) (J : JsonText) (parse_pub_key : Bytes → Option PublicKey)
    (encode_proof : EquivocationProof → Bytes) where
  abbrev pub database : Database
  database = record {
    Db = L.Db;
    get_initial_import_complete = get_initial_import_complete L;
    get_last_name_import_height = get_last_name_import_height L;
    get_name_info = get_name_info L J parse_pub_key;
    name_is_banned = name_is_banned L;
    get_header = get_header L J;
    get_sector_hashes = get_sector_hashes L;
    get_header_ban = get_header_ban L;
    get_equivocation_proof = get_equivocation_proof L;
    set_header = λ db h hs. written_db (with_tx L db (set_header_tx L J h hs));
    set_header_ban = λ db name at. written_db (with_tx L db (set_header_ban L at name (some at)));
    set_equivocation_proof = λ db name proof.
        written_db (with_tx L db (set_equivocation_proof_tx L encode_proof name proof));
  }
