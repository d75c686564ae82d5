-- ===== src/Tests/Updates.antt =====
-- Runs of protocol/updater.go.
use fnd.Base.{
  ℕ, ◌+◌, ◌≤◌, ◌<◌, ◌≡◌, ◌≢◌, ◌⊎◌, refl, arith, true, false, [], ◌∷◌, Option, none, some, Outcome,
  ok, err, ℕ_discrete, replicate,
}
use fnd.Base.Bytes.{bytes_dec, cons_dec, cons_head}
use fnd.Blob.Consts.{Hash, zero_hash}
use fnd.Blob.Hash.{SectorHashes, tip, first_zero}
use fnd.Store.Types.{Header, Time}
use fnd.Store.Interface.{DbError, not_found}
use fnd.Protocol.Epoch.{week_seconds}
use fnd.Protocol.UpdateQueue.{UpdateQueueItem}
use fnd.Protocol.Updater.{
  Plan, SyncUpdate, Answers, committed, next_u16, plan_known, plan_update, new_header, store_header,
  end_store, compare_tips, run_plan, with_plan, update_blob,
}
use fnd.Protocol.Updater.Gate.{plan_known-passes}
use fnd.Protocol.Updater.Body.{Stored, Committed, Synced, update_blob-Stored, update_blob-committed}

abbrev one_hash : Hash
one_hash = replicate 32 1

abbrev two_hash : Hash
two_hash = replicate 32 2

-- An array of one hash and zeros, less most of the zeros.
abbrev one_tree : SectorHashes
one_tree = one_hash ∷ zero_hash ∷ []

abbrev item_of : ℕ → ℕ → UpdateQueueItem
item_of epoch_height sector_size = record {
  peer_ids = record { peers = []; ids = [] };
  name = 97 ∷ [];
  epoch_height = epoch_height;
  sector_size = sector_size;
  pub_key = 2 ∷ [];
  height = 100;
  disposed = false;
}

abbrev old_header : Header
old_header = record {
  name = 97 ∷ [];
  epoch_height = 5;
  sector_size = 1;
  sector_tip_hash = two_hash;
  signature = 3 ∷ [];
  reserved_root = zero_hash;
  epoch_start_at = some 1000000;
}

abbrev meta_of : Hash → SyncUpdate
meta_of h = record { sector_tip_hash = h; reserved_root = zero_hash; signature = 4 ∷ [] }

abbrev answers : Option SyncUpdate → Answers
answers synced = record {
  locked = true;
  opens = true;
  begins = true;
  truncates = true;
  seeks = true;
  synced = (synced, false);
  tree = ok one_tree;
  stored = ok tt;
  persists = true;
  commits = true;
  rolls_back = true;
  import_height = ok 500;
}

abbrev append_plan : Plan
append_plan = record {
  epoch_height = 5;
  sector_size = 1;
  prev_hash = two_hash;
  epoch_updated = false;
}

append_planned : plan_update (ok old_header) (ok none) 1000100 5 (item_of 5 2) ≡ ok append_plan
unfolding plan_update plan_known
append_planned = refl

append-Synced : (s : Option SyncUpdate) → Synced append_plan 5 (answers s)
append-Synced s = record {
  locked = refl;
  opens = refl;
  begins = refl;
  truncates = refl;
  seeks = refl;
  on_schedule = omega arith;
  no_error = refl;
}

abbrev stored_header : Header
stored_header = new_header (item_of 5 2) append_plan 1000100 (meta_of one_hash) one_tree

append_stored :
    (update_blob
      (ok old_header)
      (ok none)
      1000100
      5
      (item_of 5 2)
      (answers (some (meta_of one_hash)))).header
    ≡ some (stored_header, one_tree)
unfolding update_blob with_plan run_plan compare_tips store_header end_store new_header plan_update
    plan_known tip first_zero bytes_dec cons_dec ℕ_discrete
append_stored = refl

update_blob-Stored_example :
    Stored
      (item_of 5 2)
      (answers (some (meta_of one_hash)))
      (update_blob
        (ok old_header)
        (ok none)
        1000100
        5
        (item_of 5 2)
        (answers (some (meta_of one_hash))))
      stored_header
      one_tree
update_blob-Stored_example =
    update_blob-Stored (ok old_header) (ok none) 1000100 5 (item_of 5 2)
      (answers (some (meta_of one_hash))) stored_header one_tree append_stored

append_committed :
    (update_blob
      (ok old_header)
      (ok none)
      1000100
      5
      (item_of 5 2)
      (answers (some (meta_of one_hash)))).tx
    ≡ committed
unfolding update_blob with_plan run_plan compare_tips store_header end_store new_header plan_update
    plan_known tip first_zero bytes_dec cons_dec ℕ_discrete
append_committed = refl

update_blob-committed_example : Committed (answers (some (meta_of one_hash))) (
    update_blob
      (ok old_header)
      (ok none)
      1000100
      5
      (item_of 5 2)
      (answers (some (meta_of one_hash))))
update_blob-committed_example =
    update_blob-committed (ok old_header) (ok none) 1000100 5 (item_of 5 2)
      (answers (some (meta_of one_hash))) append_committed

two-ne-one : two_hash ≢ tip one_tree
unfolding tip first_zero bytes_dec cons_dec ℕ_discrete
two-ne-one e = ne (cons_head e)
  where
    ne : ◌≡◌ {A = ℕ} 2 1 → ⊥
    ne q = omega arith

known_planned : plan_known old_header (ok none) 1000100 5 (item_of 5 2) ≡ ok append_plan
unfolding plan_known
known_planned = refl

plan_known-passes_example :
    ((old_header.epoch_height ≡ 5)
      × (old_header.sector_size < 2)
      × (append_plan ≡ record {
        epoch_height = old_header.epoch_height;
        sector_size = old_header.sector_size;
        prev_hash = old_header.sector_tip_hash;
        epoch_updated = false;
      }))
    ⊎ ((old_header.epoch_height < 5)
        × (5 ≤ next_u16 5)
        × ((t : ℕ)
            → ◌≡◌ {A = Outcome DbError Time} (ok none) (ok (some t))
            → (t + week_seconds ≤ 1000100) × (next_u16 old_header.epoch_height < 5))
        × ((t : ℕ)
            → old_header.epoch_start_at ≡ some t
            → 1000100 < t + week_seconds
            → next_u16 5 ≤ 5)
        × (append_plan ≡ record {
          epoch_height = 5;
          sector_size = 0;
          prev_hash = zero_hash;
          epoch_updated = true;
        }))
plan_known-passes_example =
    plan_known-passes old_header (ok none) 1000100 5 (item_of 5 2) append_plan known_planned

abbrev first_plan : Plan
first_plan = record {
  epoch_height = 0;
  sector_size = 0;
  prev_hash = zero_hash;
  epoch_updated = true;
}

abbrev future_header : Header
future_header = new_header (item_of 900 2) first_plan 1000100 (meta_of one_hash) one_tree

future_stored :
    (update_blob
      (err not_found)
      (ok none)
      1000100
      5
      (item_of 900 2)
      (answers (some (meta_of one_hash)))).header
    ≡ some (future_header, one_tree)
unfolding update_blob with_plan run_plan compare_tips store_header end_store new_header plan_update
    tip first_zero bytes_dec cons_dec ℕ_discrete
future_stored = refl
