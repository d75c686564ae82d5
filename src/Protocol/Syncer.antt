-- ===== src/Protocol/Syncer.antt =====
-- protocol/syncer.go: what the goroutine of `SyncSectors` does with one blob response. Its
-- requests, the channels and the timeout are not modelled: a response that it answers ends the
-- sync.
pub mod Payload
use fnd.Base.{
  ℕ, zero, suc, ◌+◌, ◌%◌, ◌≡◌, Bool, true, false, not, Option, none, some, List, [], ◌∷◌, ◌++◌, ltb,
  ◌==◌, if◌then◌else◌, holds, length, ℕ_discrete, Outcome, ok, err, panicked,
}
use fnd.Base.Bytes.{Bytes, bytes_dec}
use fnd.Base.GoMap.{Map, get, put}
use fnd.Blob.Consts.{Hash, Sector, max_sectors}
use fnd.Blob.Hash.{payload_tip}
use fnd.Blob.Transaction.{Tx, Faults, write_sector}
use fnd.Store.Types.{Name, Header, EquivocationProof}
use fnd.Store.Interface.{DbError, Database}
use fnd.Protocol.Epoch.{u16_mod}
use fnd.Protocol.PeerSet.{is_set}
use fnd.Protocol.UpdateQueue.{Update}
use fnd.Protocol.Updater.{SyncUpdate}
use fnd.Protocol.Validate.{Externals, ValidateError, validate_blob_update}
use fnd.Protocol.SectorServer.{BlobRes, or_same}

pub data SyncError : Type 0 where
  invalid_payload_signature payload_equivocation : SyncError

pub record SyncSectorsOpts : Type 0 where
  pub name : Name
  pub epoch_height : ℕ
  pub sector_size : ℕ
  pub prev_hash : Hash

-- What a response leads to: it is passed over, or the sync ends with an error or an update. The
-- store panics on bytes that it did not write.
pub data Handled : Type 0 where
  passed_over crashes : Handled
  fails : SyncError → Handled
  processed : SyncUpdate → Handled

-- What the checks say of a response.
pub data Verdict : Type 0 where
  extraneous bad_signature conflict accepted unreadable : Verdict

abbrev pub sector_size_of : BlobRes → ℕ
sector_size_of msg = (msg.payload_position + length msg.payload) % u16_mod

abbrev pub tip_of : Externals → BlobRes → Hash
tip_of x msg = payload_tip x.blake2b msg.prev_hash msg.payload

abbrev pub compare_prev : Bool → Outcome ValidateError (Unit {0}) → Verdict
compare_prev same (err e) = bad_signature
compare_prev same panicked = unreadable
compare_prev true (ok _) = accepted
compare_prev false (ok _) = conflict

-- The loop over `WriteSector`: a sector that cannot be written is logged, and the next is written.
unfoldable pub write_payload : (ℕ → Faults) → ℕ → List Sector → Tx → Tx
write_payload f i [] tx = tx
write_payload f i (sector ∷ payload) tx =
    write_payload f (suc i) payload (write_sector (f i) sector tx).0

-- The proof that the stored header and the response make.
unfoldable pub proof_of : Header → BlobRes → EquivocationProof
proof_of header msg = record {
  name = msg.name;
  remote_epoch_height = msg.epoch_height;
  remote_payload_position = msg.payload_position;
  remote_prev_hash = msg.prev_hash;
  remote_reserved_root = msg.reserved_root;
  remote_payload = msg.payload;
  remote_signature = msg.signature;
  local_epoch_height = header.epoch_height;
  local_sector_size = header.sector_size;
  local_sector_tip_hash = header.sector_tip_hash;
  local_reserved_root = header.reserved_root;
  local_signature = header.signature;
}

module _ (x : Externals) (d : Database) where
  open d use {Db, get_header, get_equivocation_proof, set_header_ban, set_equivocation_proof}

  -- The state that a response changes: the store, the transaction, the positions that were
  -- received, and the updates that were gossiped.
  pub record Round : Type 0 where
    pub db : Db
    pub tx : Tx
    pub received_payloads : Map ℕ Bool
    pub gossiped : List Update

  -- The checks of a response, up to that of the previous hash.
  unfoldable pub judge : SyncSectorsOpts → Round → BlobRes → Verdict
  judge opts round msg =
      if not (holds (bytes_dec msg.name opts.name))
      then extraneous
      else (if is_set (get ℕ_discrete msg.payload_position round.received_payloads)
          then extraneous
          else (if ltb msg.epoch_height opts.epoch_height
              then extraneous
              else (if not (opts.sector_size == msg.payload_position)
                  then extraneous
                  else (if ltb max_sectors (sector_size_of msg)
                      then extraneous
                      else compare_prev (holds (bytes_dec opts.prev_hash msg.prev_hash)) (
                          validate_blob_update x d round.db msg.name msg.epoch_height
                            (sector_size_of msg) (tip_of x msg) msg.reserved_root msg.signature)))))

  -- The update that tells the peers of an equivocation.
  abbrev pub notice : BlobRes → Update
  notice msg = record { name = msg.name; epoch_height = msg.epoch_height; sector_size = 0 }

  -- The ban is set: the proof is stored, and the peers are told.
  abbrev pub tell_peers : Round → BlobRes → Header → Outcome DbError Db → Round × Handled
  tell_peers round msg header (err e) = (round, passed_over)
  tell_peers round msg header panicked = (round, crashes)
  tell_peers round msg header (ok db) = (
    record round {
      db = or_same db (set_equivocation_proof db msg.name (proof_of header msg));
      gossiped = round.gossiped ++ notice msg ∷ [];
    },
    fails payload_equivocation,
  )

  abbrev pub ban_name : Round → ℕ → BlobRes → Outcome DbError Header → Round × Handled
  ban_name round now msg (err e) = (round, passed_over)
  ban_name round now msg panicked = (round, crashes)
  ban_name round now msg (ok header) =
      tell_peers round msg header (set_header_ban round.db msg.name now)

  abbrev pub unless_proven : Round → ℕ → BlobRes → Outcome DbError Bytes → Round × Handled
  unless_proven round now msg (ok proof) = (round, fails payload_equivocation)
  unless_proven round now msg (err e) = ban_name round now msg (get_header round.db msg.name)
  unless_proven round now msg panicked = (round, crashes)

  -- What follows the checks.
  abbrev pub act_on :
      SyncSectorsOpts → (ℕ → Faults) → ℕ → Round → BlobRes → Verdict → Round × Handled
  act_on opts f now round msg extraneous = (round, passed_over)
  act_on opts f now round msg unreadable = (round, crashes)
  act_on opts f now round msg bad_signature = (round, fails invalid_payload_signature)
  act_on opts f now round msg conflict =
      if opts.epoch_height == msg.epoch_height
      then unless_proven round now msg (get_equivocation_proof round.db msg.name)
      else (round, fails payload_equivocation)
  act_on opts f now round msg accepted = (
    record round {
      tx = write_payload f 0 msg.payload round.tx;
      received_payloads = put ℕ_discrete msg.payload_position true round.received_payloads;
    },
    processed (record {
      sector_tip_hash = tip_of x msg;
      reserved_root = msg.reserved_root;
      signature = msg.signature;
    }),
  )

  unfoldable pub on_payload : SyncSectorsOpts → (ℕ → Faults) → ℕ → Round → BlobRes → Round × Handled
  on_payload opts f now round msg = act_on opts f now round msg (judge opts round msg)
