-- ===== src/Protocol/Updater/Throttle.antt =====
-- protocol/updater.go: what one update does to the checks of the next.
use fnd.Base.{
  ℕ, ◌≤◌, ◌<◌, ◌≡◌, refl, ◌∙◌, true, false, none, some, arith, ok, err, panicked, Outcome,
}
use fnd.Blob.Consts.{zero_hash}
use fnd.Blob.Hash.{SectorHashes}
use fnd.Store.Types.{Header, Time}
use fnd.Store.Interface.{DbError, not_found}
use fnd.Protocol.UpdateQueue.{UpdateQueueItem}
use fnd.Protocol.Updater.Gate.{plan_known-passes}
use fnd.Protocol.Updater.{
  UpdaterError, invalid_epoch_backdated, Plan, Answers, next_u16, check_rollover, plan_known,
  plan_update, new_header, store_header, compare_tips, run_plan, with_plan, update_blob,
}

abbrev start_of : Plan → ℕ → Time
start_of plan now = elim plan.epoch_updated [ true ↦ some now | false ↦ none ]

with_plan-start :
    (item : UpdateQueueItem) (now current : ℕ) (a : Answers) (h : Header) (t : SectorHashes)
    (plan : Plan)
    → (with_plan item now current a (ok plan)).header ≡ some (h, t)
    → (h.epoch_start_at ≡ start_of plan now) × (h.epoch_height ≡ item.epoch_height)
unfolding with_plan run_plan compare_tips store_header new_header
with_plan-start item now current a h t plan e = ground arith

none-ne-some : {x : Header × SectorHashes} → none ≡ some x → ⊥
none-ne-some e = cc

rollover-unthrottled :
    (h : Header) (now current : ℕ) (item : UpdateQueueItem)
    → h.epoch_start_at ≡ none
    → h.epoch_height < item.epoch_height
    → item.epoch_height ≤ next_u16 current
    → plan_update (ok h) (ok none) now current item
      ≡ ok (record {
        epoch_height = item.epoch_height;
        sector_size = 0;
        prev_hash = zero_hash;
        epoch_updated = true;
      })
unfolding plan_update plan_known check_rollover
rollover-unthrottled h now current item start newer soon = ground arith

plan_known-append :
    (header : Header) (ban : Outcome DbError Time) (now current : ℕ) (item : UpdateQueueItem)
    (plan : Plan)
    → plan_update (ok header) ban now current item ≡ ok plan
    → header.epoch_height ≡ item.epoch_height
    → plan.epoch_updated ≡ false
unfolding plan_update
plan_known-append header ban now current item plan p same =
    ground (arith, plan_known-passes header ban now current item plan p)

appended-start :
    (header : Header) (ban : Outcome DbError Time) (now current : ℕ) (item : UpdateQueueItem)
    (a : Answers) (h : Header) (t : SectorHashes) (o : Outcome UpdaterError Plan)
    → plan_update (ok header) ban now current item ≡ o
    → header.epoch_height ≡ item.epoch_height
    → (with_plan item now current a o).header ≡ some (h, t)
    → h.epoch_start_at ≡ none
unfolding with_plan
appended-start header ban now current item a h t (ok plan) p same e =
    (with_plan-start item now current a h t plan e).0
    ∙ (rw (plan_known-append header ban now current item plan p same) refl)
appended-start header ban now current item a h t (err x) p same e = absurd (none-ne-some e)
appended-start header ban now current item a h t panicked p same e = absurd (none-ne-some e)

-- After an update within an epoch the stored header has lost the start of the epoch: every later
-- update to a higher epoch of at most one past the current passes, however soon it comes.
pub append-unthrottled :
    (header : Header) (ban : Outcome DbError Time) (now current : ℕ) (item : UpdateQueueItem)
    (a : Answers) (h : Header) (t : SectorHashes) (now' current' : ℕ) (item' : UpdateQueueItem)
    → header.epoch_height ≡ item.epoch_height
    → (update_blob (ok header) ban now current item a).header ≡ some (h, t)
    → h.epoch_height < item'.epoch_height
    → item'.epoch_height ≤ next_u16 current'
    → plan_update (ok h) (ok none) now' current' item'
      ≡ ok (record {
        epoch_height = item'.epoch_height;
        sector_size = 0;
        prev_hash = zero_hash;
        epoch_updated = true;
      })
unfolding update_blob
append-unthrottled header ban now current item a h t now' current' item' same e newer soon =
    rollover-unthrottled h now' current' item'
      (appended-start header ban now current item a h t
        (plan_update (ok header) ban now current item) refl same e)
      newer soon

-- For a name without a header, a first update of an epoch beyond the next one is stored with that
-- epoch, and from then on every update of an epoch that is on schedule is refused as backdated.
pub unknown_locks_out :
    (banned_at : Time) (now current : ℕ) (item : UpdateQueueItem) (a : Answers) (h : Header)
    (t : SectorHashes) (ban : Outcome DbError Time) (now' current' : ℕ) (item' : UpdateQueueItem)
    → (update_blob (err not_found) (ok banned_at) now current item a).header ≡ some (h, t)
    → next_u16 current' < item.epoch_height
    → item'.epoch_height ≤ next_u16 current'
    → plan_update (ok h) ban now' current' item' ≡ err invalid_epoch_backdated
unfolding update_blob plan_update plan_known
unknown_locks_out banned_at now current item a h t ban now' current' item' e future on_time =
    let stored = with_plan-start item now current a h t _ e in ground (arith, stored.1)
