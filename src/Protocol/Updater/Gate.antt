-- ===== src/Protocol/Updater/Gate.antt =====
-- protocol/updater.go: which updates pass the checks before the lock.
use fnd.Base.{ℕ, ◌+◌, ◌≤◌, ◌<◌, ◌≡◌, ◌⊎◌, true, false, some, arith, ok, Outcome}
use fnd.Blob.Consts.{zero_hash}
use fnd.Store.Types.{Header, Time}
use fnd.Store.Interface.{DbError}
use fnd.Protocol.Epoch.{week_seconds}
use fnd.Protocol.UpdateQueue.{UpdateQueueItem}
use fnd.Protocol.Updater.{Plan, next_u16, check_rollover, plan_known}

check_rollover-passes :
    (header : Header) (banned_at : Time) (now current e : ℕ)
    → check_rollover header banned_at now current e ≡ ok tt
    → ((t : ℕ) → banned_at ≡ some t → (t + week_seconds ≤ now) × (next_u16 header.epoch_height < e))
      × ((t : ℕ) → header.epoch_start_at ≡ some t → now < t + week_seconds → next_u16 current ≤ e)
      × (e ≤ next_u16 current)
unfolding check_rollover
check_rollover-passes header banned_at now current e h = ground arith

-- Against a stored header an update passes the checks only in two ways. It has the header's epoch
-- and more sectors: then the plan goes on from the header's size and tip hash. Or it has a higher
-- epoch, of at most one past the current one: then the plan starts over, any ban is a week old and
-- at least two epochs back, and an epoch that started less than a week ago is left only for the one
-- past the current.
pub plan_known-passes :
    (header : Header) (ban : Outcome DbError Time) (now current : ℕ) (item : UpdateQueueItem)
    (plan : Plan)
    → plan_known header ban now current item ≡ ok plan
    → ((header.epoch_height ≡ item.epoch_height)
        × (header.sector_size < item.sector_size)
        × (plan ≡ record {
          epoch_height = header.epoch_height;
          sector_size = header.sector_size;
          prev_hash = header.sector_tip_hash;
          epoch_updated = false;
        }))
      ⊎ ((header.epoch_height < item.epoch_height)
          × (item.epoch_height ≤ next_u16 current)
          × ((t : ℕ)
              → ban ≡ ok (some t)
              → (t + week_seconds ≤ now) × (next_u16 header.epoch_height < item.epoch_height))
          × ((t : ℕ)
              → header.epoch_start_at ≡ some t
              → now < t + week_seconds
              → next_u16 current ≤ item.epoch_height)
          × (plan ≡ record {
            epoch_height = item.epoch_height;
            sector_size = 0;
            prev_hash = zero_hash;
            epoch_updated = true;
          }))
unfolding plan_known
plan_known-passes header ban now current item plan h = ground arith
