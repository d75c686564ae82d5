-- ===== src/Tests/Servers.antt =====
-- Runs of protocol/sector_server.go and protocol/syncer.go. A signature is the hash that it signs.
use fnd.Base.{
  sym, ◌≢◌, ◌∙◌, ℕ, ◌≡◌, ◌≢◌, refl, ap, arith, Bool, true, false, List, [], ◌∷◌, none, some, ok,
  err, if◌then◌else◌, holds, holds_yes, length, length-replicate, replicate, ℕ_discrete,
}
use fnd.Base.Bytes.{bytes_dec, cons_dec}
use fnd.Base.GoMap.{get}
use fnd.Blob.Consts.{Hash, Sector, zero_hash, max_sectors}
use fnd.Blob.Hash.{SectorHashes, payload_tip}
use fnd.Blob.Transaction.{begin}
use fnd.Blob.Transaction.Atomic.{no_faults}
use fnd.Store.Types.{Name, Header, EquivocationProof}
use fnd.Store.Interface.{Database, not_found}
use fnd.Protocol.UpdateQueue.{BlobReq}
use fnd.Protocol.Updater.{SyncUpdate}
use fnd.Protocol.Validate.{Externals, seal_hash, validate_blob_update, IsSigned}
use fnd.Protocol.SectorServer.{
  BlobRes, Locks, crashes, Sources, get_sector_hash, on_blob_req, check_proof,
  on_equivocation_proof,
}
use fnd.Protocol.SectorServer.Locking.{SameModes, on_blob_req-releases}
use fnd.Protocol.SectorServer.Proofs.{
  IsProven, IsCurrent, IsHonest, on_equivocation_proof-IsProven, on_equivocation_proof-honest,
}
use fnd.Protocol.UpdateServer.{
  UpdateReq, update, Tells, update_req_handler, update_req_handler-Tells,
}
use fnd.Protocol.UpdateQueue.{Update}
use fnd.Protocol.Syncer.{SyncSectorsOpts, Round, processed, conflict, judge, proof_of, on_payload}
use fnd.Protocol.Syncer.Payload.{
  IsSound, on_payload-processed, on_payload-bans, proof_of-check_proof,
}

abbrev plain : Externals
plain = record {
  blake2b = λ b. b;
  encode_name = λ name. name;
  encode_u16 = λ n. n ∷ [];
  validate_name = λ name. true;
  verify_sig_pub = λ key sig h. holds (bytes_dec sig h);
}

abbrev name_a : Name
name_a = 97 ∷ []

abbrev old_tip : Hash
old_tip = 9 ∷ []

abbrev other_tip : Hash
other_tip = 8 ∷ []

abbrev new_sectors : List Sector
new_sectors = (7 ∷ []) ∷ []

abbrev old_header : Header
old_header = record {
  name = name_a;
  epoch_height = 5;
  sector_size = 1;
  sector_tip_hash = old_tip;
  signature = seal_hash plain name_a 5 1 old_tip zero_hash;
  reserved_root = zero_hash;
  epoch_start_at = none;
}

-- A store with one header, which knows whether the name is banned.
abbrev one_header : Database
one_header = record {
  Db = Bool;
  get_initial_import_complete = λ db. ok true;
  get_last_name_import_height = λ db. ok 200;
  get_name_info = λ db name. ok (record { name = name; public_key = 2 ∷ []; import_height = 100 });
  name_is_banned = λ db name. ok false;
  get_header = λ db name. ok old_header;
  get_sector_hashes = λ db name. err not_found;
  get_header_ban = λ db name. ok (if db then some 0 else none);
  get_equivocation_proof = λ db name. err not_found;
  set_header = λ db h hashes. ok db;
  set_header_ban = λ db name t. ok true;
  set_equivocation_proof = λ db name proof. ok db;
}

abbrev response_over : Hash → BlobRes
response_over prev = record {
  name = name_a;
  epoch_height = 5;
  payload_position = 1;
  prev_hash = prev;
  reserved_root = zero_hash;
  payload = new_sectors;
  signature = seal_hash plain name_a 5 2 (payload_tip plain.blake2b prev new_sectors) zero_hash;
}

abbrev append_proof : EquivocationProof
append_proof = proof_of old_header (response_over old_tip)

IsSigned-as :
    (e n : ℕ) (tip : Hash)
    → IsSigned plain one_header false name_a e n tip zero_hash
        (seal_hash plain name_a e n tip zero_hash)
IsSigned-as e n tip = record {
  info = record { name = name_a; public_key = 2 ∷ []; import_height = 100 };
  known = refl;
  allowed = refl;
  valid = refl;
  verified = holds_yes (bytes_dec _ _) refl;
}

append-IsCurrent : IsCurrent plain one_header false append_proof
unfolding proof_of
append-IsCurrent = record {
  header = old_header;
  stored = refl;
  not_banned = refl;
  not_later = omega arith;
}

append-IsHonest : IsHonest plain one_header false append_proof
unfolding proof_of
append-IsHonest = record {
  same_epoch = refl;
  follows = refl;
  extends = refl;
  fits = omega arith;
  before = IsSigned-as 5 1 old_tip;
  after = IsSigned-as 5 2 (payload_tip plain.blake2b old_tip new_sectors);
}

append_taken : (on_equivocation_proof plain one_header false 1000 append_proof).0 ≢ false
append_taken e = changed (sym taken ∙ e)
  where
    taken : (on_equivocation_proof plain one_header false 1000 append_proof).0 ≡ true
    taken =
        ap (λ p. p.0)
          (on_equivocation_proof-honest plain one_header false false true 1000 append_proof
            append-IsHonest append-IsCurrent refl refl)

    changed : ◌≡◌ {A = Bool} true false → ⊥
    changed e = cc

on_equivocation_proof-IsProven_example : IsProven plain one_header false append_proof
on_equivocation_proof-IsProven_example =
    on_equivocation_proof-IsProven plain one_header false 1000 append_proof append_taken

abbrev asked : SyncSectorsOpts
asked = record { name = name_a; epoch_height = 5; sector_size = 1; prev_hash = old_tip }

abbrev first_round : Round plain one_header
first_round = record {
  db = false;
  tx = begin (record { content = []; linked = true });
  received_payloads = [];
  gossiped = [];
}

abbrev synced : SyncUpdate
synced = record {
  sector_tip_hash = payload_tip plain.blake2b old_tip new_sectors;
  reserved_root = zero_hash;
  signature = seal_hash plain name_a 5 2 (payload_tip plain.blake2b old_tip new_sectors) zero_hash;
}

response_processed :
    (on_payload plain one_header asked (λ i. no_faults) 1000 first_round (response_over old_tip)).1
    ≡ processed synced
unfolding on_payload judge validate_blob_update seal_hash payload_tip get bytes_dec cons_dec
    ℕ_discrete
response_processed = refl

on_payload-processed_example :
    IsSound plain one_header asked false (response_over old_tip)
    × (old_tip ≡ old_tip)
    × (synced.sector_tip_hash ≡ payload_tip plain.blake2b old_tip new_sectors)
on_payload-processed_example =
    on_payload-processed plain one_header asked (λ i. no_faults) 1000 first_round
      (response_over old_tip) synced response_processed

conflict_judged : judge plain one_header asked first_round (response_over other_tip) ≡ conflict
unfolding judge validate_blob_update seal_hash payload_tip get bytes_dec cons_dec ℕ_discrete
conflict_judged = refl

conflict_bans :
    (on_payload plain one_header asked
      (λ i. no_faults)
      1000
      first_round
      (response_over other_tip)).0.db
    ≢ first_round.db
unfolding on_payload judge validate_blob_update seal_hash payload_tip get bytes_dec cons_dec
    ℕ_discrete
conflict_bans e = true-ne-false e
  where
    true-ne-false : ◌≡◌ {A = Bool} true false → ⊥
    true-ne-false q = cc

on_payload-bans_example :
    IsSound plain one_header asked false (response_over other_tip)
    × (old_tip ≢ other_tip)
    × (asked.epoch_height ≡ (response_over other_tip).epoch_height)
on_payload-bans_example =
    on_payload-bans plain one_header asked (λ i. no_faults) 1000 first_round
      (response_over other_tip) conflict_bans

conflict-IsCurrent :
    IsCurrent plain one_header false (proof_of old_header (response_over other_tip))
unfolding proof_of
conflict-IsCurrent = record {
  header = old_header;
  stored = refl;
  not_banned = refl;
  not_later = omega arith;
}

proof_of-check_proof_example :
    check_proof plain one_header false 1000 (proof_of old_header (response_over other_tip)) ≡ ok tt
proof_of-check_proof_example =
    proof_of-check_proof plain one_header asked first_round (response_over other_tip) old_header
      1000 conflict_judged refl refl refl (omega arith) (IsSigned-as 5 1 old_tip) conflict-IsCurrent

abbrev request_from : ℕ → BlobReq
request_from n = record { name = name_a; epoch_height = 5; sector_size = n }

abbrev nothing_cached : Sources
nothing_cached = record { cached = none; opens = true; read = some new_sectors }

abbrev no_locks : Locks
no_locks = []

on_blob_req-releases_example :
    SameModes no_locks
      (on_blob_req
        (ok old_header)
        (ok append_proof)
        (ok (old_tip ∷ []))
        nothing_cached
        no_locks
        (request_from 1)).0
    × ((on_blob_req
          (ok old_header)
          (ok append_proof)
          (ok (old_tip ∷ []))
          nothing_cached
          no_locks
          (request_from 1)).1
        ≢ crashes)
unfolding get get_sector_hash
on_blob_req-releases_example =
    on_blob_req-releases (ok old_header) append_proof (ok (old_tip ∷ [])) nothing_cached no_locks
      (request_from 1) old_tip (λ q. cc) (λ q. cc) refl

abbrev full_hashes : SectorHashes
full_hashes = replicate max_sectors zero_hash

full_hashes-length : length full_hashes ≡ max_sectors
full_hashes-length = length-replicate {0} {A = Hash} max_sectors zero_hash

abbrev update_asked : UpdateReq
update_asked = record { name = name_a; epoch_height = 5; sector_size = 0 }

update_req_handler-Tells_example :
    SameModes no_locks (update_req_handler (ok old_header) no_locks update_asked).0
    × ((u : Update)
        → (update_req_handler (ok old_header) no_locks update_asked).1 ≡ update u
        → Tells update_asked (ok old_header) u)
unfolding get
update_req_handler-Tells_example =
    update_req_handler-Tells (ok old_header) no_locks update_asked (λ q. cc)
