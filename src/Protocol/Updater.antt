-- ===== src/Protocol/Updater.antt =====
-- protocol/updater.go: `UpdateBlob` on one item of the queue. Times are seconds since 1970; the
-- current epoch of the name and the clock are arguments, and what the other components answer on
-- the way is the record `Answers`.
pub mod Gate
pub mod Body
pub mod Throttle
use fnd.Base.{
  ℕ, zero, suc, ◌+◌, ◌-◌, ◌%◌, ◌≡◌, Bool, true, false, not, Option, none, some, List, [], ◌∷◌, ltb,
  leb, ◌==◌, ◌&&◌, ◌||◌, if◌then◌else◌, holds, Outcome, ok, err, panicked, ◌>>=◌, ◌>>◌, reject_if,
}
use fnd.Base.Bytes.{Bytes, bytes_dec}
use fnd.Blob.Consts.{Hash, zero_hash}
use fnd.Blob.Hash.{SectorHashes, tip}
use fnd.Store.Types.{Name, Header, Signature, Time}
use fnd.Store.Interface.{DbError, not_found, failed}
use fnd.Protocol.Epoch.{u16_mod, week_seconds}
use fnd.Protocol.UpdateQueue.{UpdateQueueItem, Update}

pub data UpdaterError : Type 0 where
  already_synchronized name_locked name_banned : UpdaterError
  invalid_epoch_current invalid_epoch_throttled : UpdaterError
  invalid_epoch_backdated invalid_epoch_futuredated : UpdaterError
  ahead_of_schedule blob_failed transaction_failed truncate_failed seek_failed : UpdaterError
  sync_failed hash_failed : UpdaterError
  db_error : DbError → UpdaterError

-- What is to be fetched: from which epoch and sector on, over which tip, and whether the blob is
-- rewritten whole.
pub record Plan : Type 0 where
  pub epoch_height : ℕ
  pub sector_size : ℕ
  pub prev_hash : Hash
  pub epoch_updated : Bool

-- `at.Add(7 days).After(now)`; the zero time is long past.
abbrev pub within_week : Time → ℕ → Bool
within_week none now = false
within_week (some t) now = ltb now (t + week_seconds)

abbrev pub is_set : Time → Bool
is_set none = false
is_set (some t) = true

abbrev pub next_u16 : ℕ → ℕ
next_u16 n = (n + 1) % u16_mod

abbrev pub read_ban : Outcome DbError Time → Outcome UpdaterError Time
read_ban (ok t) = ok t
read_ban (err e) = err (db_error e)
read_ban panicked = panicked

-- The checks of an update that opens a higher epoch than the stored header's.
unfoldable pub check_rollover : Header → Time → ℕ → ℕ → ℕ → Outcome UpdaterError (Unit {0})
check_rollover header banned_at now current item_epoch = do
  reject_if (is_set banned_at && within_week banned_at now) name_banned
  reject_if (is_set banned_at && leb item_epoch (next_u16 header.epoch_height))
      invalid_epoch_current
  reject_if (within_week header.epoch_start_at now && ltb item_epoch (next_u16 current))
      invalid_epoch_throttled
  reject_if (ltb (next_u16 current) item_epoch) invalid_epoch_futuredated

-- `UpdateBlob` up to the lock, where there is a header.
unfoldable pub plan_known :
    Header → Outcome DbError Time → ℕ → ℕ → UpdateQueueItem → Outcome UpdaterError Plan
unfolding check_rollover
plan_known header ban now current item = do
  reject_if ((header.epoch_height == item.epoch_height) && leb item.sector_size header.sector_size)
      already_synchronized
  reject_if (ltb item.epoch_height header.epoch_height) invalid_epoch_backdated
  banned_at ← read_ban ban
  if ltb header.epoch_height item.epoch_height
      then (do
        check_rollover header banned_at now current item.epoch_height
        ok (record {
          epoch_height = item.epoch_height;
          sector_size = 0;
          prev_hash = zero_hash;
          epoch_updated = true;
        }))
      else ok (record {
        epoch_height = header.epoch_height;
        sector_size = header.sector_size;
        prev_hash = header.sector_tip_hash;
        epoch_updated = false;
      })

-- `UpdateBlob` up to the lock, from what the store answers for the header and for the ban.
unfoldable pub plan_update :
    Outcome DbError Header
    → Outcome DbError Time
    → ℕ
    → ℕ
    → UpdateQueueItem
    → Outcome UpdaterError Plan
unfolding plan_known
plan_update (ok header) ban now current item = plan_known header ban now current item
plan_update (err not_found) ban now current item = do
  banned_at ← read_ban ban
  ok (record { epoch_height = 0; sector_size = 0; prev_hash = zero_hash; epoch_updated = true })
plan_update (err failed) ban now current item = err (db_error failed)
plan_update panicked ban now current item = panicked

pub record SyncUpdate : Type 0 where
  pub sector_tip_hash : Hash
  pub reserved_root : Hash
  pub signature : Signature

-- What the lock, the blob, the syncer and the store answer. `synced` is the pair that SyncSectors
-- returns: a timeout gives no update and no error. `stored` is what WithTx returns and `persists`
-- whether the header is in the database after it: an error of the callback does not keep it out,
-- because WithTx commits all the same, and a commit that fails is not reported. `commits` and
-- `rolls_back` say that Commit and Rollback of the blob's transaction do not panic.
pub record Answers : Type 0 where
  pub locked : Bool
  pub opens : Bool
  pub begins : Bool
  pub truncates : Bool
  pub seeks : Bool
  pub synced : Option SyncUpdate × Bool
  pub tree : Outcome UpdaterError SectorHashes
  pub stored : Outcome DbError (Unit {0})
  pub persists : Bool
  pub commits : Bool
  pub rolls_back : Bool
  pub import_height : Outcome DbError ℕ

-- How the blob's transaction ends; it is broken where Commit or Rollback panics.
pub data TxEnd : Type 0 where
  not_begun left_open rolled_back committed broken : TxEnd

-- What a call of `UpdateBlob` leaves: its error, the transaction, the header that it has put in the
-- store, beside the hashes that it was made from, and the update that it gossips. Whether a callback
-- of WithTx that failed has kept those hashes too is not modelled. The item is disposed of in each
-- case.
pub record Updated : Type 0 where
  pub error : Outcome UpdaterError (Unit {0})
  pub tx : TxEnd
  pub header : Option (Header × SectorHashes)
  pub gossip : Option Update

abbrev pub stops : UpdaterError → TxEnd → Updated
stops e end = record { error = err e; tx = end; header = none; gossip = none }

abbrev pub crashes : Updated
crashes = record { error = panicked; tx = left_open; header = none; gossip = none }

unfoldable pub new_header : UpdateQueueItem → Plan → ℕ → SyncUpdate → SectorHashes → Header
new_header item plan now meta tree = record {
  name = item.name;
  epoch_height = item.epoch_height;
  sector_size = item.sector_size;
  sector_tip_hash = tip tree;
  signature = meta.signature;
  reserved_root = meta.reserved_root;
  epoch_start_at = if plan.epoch_updated then some now else none;
}

-- The names imported less than ten blocks ago are not gossiped. The difference of the heights is an
-- int, so it is below 10 also where it is negative.
unfoldable pub gossip_of : UpdateQueueItem → Outcome DbError ℕ → Option Update
gossip_of item (ok height) =
    if ltb height (item.height + 10)
    then none
    else some (record {
      name = item.name;
      epoch_height = item.epoch_height;
      sector_size = item.sector_size;
    })
gossip_of item (err e) = none
gossip_of item panicked = none

-- `tx.Rollback()` before a return.
abbrev pub undo :
    Answers → Outcome UpdaterError (Unit {0}) → Option (Header × SectorHashes) → Updated
undo a e header =
    if a.rolls_back
    then record { error = e; tx = rolled_back; header = header; gossip = none }
    else record { error = panicked; tx = broken; header = header; gossip = none }

-- Reading the import height fails without an error, or panics.
abbrev pub error_of : Outcome DbError ℕ → Outcome UpdaterError (Unit {0})
error_of (ok height) = ok tt
error_of (err e) = ok tt
error_of panicked = panicked

abbrev pub kept : Bool → Header × SectorHashes → Option (Header × SectorHashes)
kept true h = some h
kept false h = none

-- What follows WithTx; it panics only if its callback does, and then it discards.
unfoldable pub end_store :
    UpdateQueueItem → Answers → Header × SectorHashes → Outcome DbError (Unit {0}) → Updated
unfolding gossip_of
end_store item a h (ok _) =
    if a.commits
    then record {
      error = error_of a.import_height;
      tx = committed;
      header = kept a.persists h;
      gossip = gossip_of item a.import_height;
    }
    else record { error = panicked; tx = broken; header = kept a.persists h; gossip = none }
end_store item a h (err e) = undo a (err (db_error e)) (kept a.persists h)
end_store item a h panicked = crashes

-- The end of `UpdateBlob`, once the synced tip is that of the new blob.
unfoldable pub store_header :
    UpdateQueueItem → Plan → ℕ → Answers → SyncUpdate → SectorHashes → Updated
unfolding new_header end_store
store_header item plan now a meta tree =
    end_store item a (new_header item plan now meta tree, tree) a.stored

-- From the result of `SerialHash` on. `sectorMeta` may be nil here. On a mismatch the returned
-- error wraps the nil error of the calls before, and so is nil.
unfoldable pub compare_tips :
    UpdateQueueItem
    → Plan
    → ℕ
    → Answers
    → Option SyncUpdate
    → Outcome UpdaterError SectorHashes
    → Updated
unfolding store_header
compare_tips item plan now a meta (err e) = undo a (err hash_failed) none
compare_tips item plan now a meta panicked = crashes
compare_tips item plan now a none (ok tree) = crashes
compare_tips item plan now a (some meta) (ok tree) =
    if holds (bytes_dec meta.sector_tip_hash (tip tree))
    then store_header item plan now a meta tree
    else undo a (ok tt) none

-- `UpdateBlob` with the lock held.
unfoldable pub run_plan : UpdateQueueItem → Plan → ℕ → ℕ → Answers → Updated
unfolding compare_tips
run_plan item plan now current a =
    if not a.opens
    then stops blob_failed not_begun
    else (if not a.begins
        then stops transaction_failed not_begun
        else (if plan.epoch_updated && ltb (next_u16 current) plan.epoch_height
            then stops ahead_of_schedule left_open
            else (if plan.epoch_updated && not a.truncates
                then stops truncate_failed left_open
                else (if not a.seeks
                    then stops seek_failed left_open
                    else (if a.synced.1
                        then undo a (err sync_failed) none
                        else compare_tips item plan now a a.synced.0 a.tree)))))

-- `UpdateBlob` from the lock on, if the checks before it gave a plan.
unfoldable pub with_plan : UpdateQueueItem → ℕ → ℕ → Answers → Outcome UpdaterError Plan → Updated
with_plan item now current a (ok plan) =
    if not a.locked then stops name_locked not_begun else run_plan item plan now current a
with_plan item now current a (err e) = stops e not_begun
with_plan item now current a panicked = record {
  error = panicked;
  tx = not_begun;
  header = none;
  gossip = none;
}

-- `UpdateBlob`
unfoldable pub update_blob :
    Outcome DbError Header → Outcome DbError Time → ℕ → ℕ → UpdateQueueItem → Answers → Updated
update_blob header ban now current item a =
    with_plan item now current a (plan_update header ban now current item)
