-- ===== src/Protocol/UpdateQueue/Admission.antt =====
-- protocol/update_queue.go: which updates are let in, and what an update does to an entry.
use fnd.Base.{
  ◌≤◌, ◌<◌, ◌≡◌, ◌⊎◌, refl, Bool, true, false, none, some, arith, ok, err, ltb-false, lt→ltb, ==-ne,
}
use fnd.Base.Bytes.{bytes_dec}
use fnd.Base.GoMap.{get, get-put_at}
use fnd.Blob.Consts.{Hash}
use fnd.Store.Types.{Name, NameInfo, Header}
use fnd.Store.Interface.{Database, not_found}
use fnd.Protocol.UpdateQueue.{
  Update, UpdateQueueItem, UpdateQueue, validate_update, check_update, new_item, enqueue_locked,
}

-- An update is let in only if its name is valid, neither the name nor its header is banned, the
-- name is known, and either the store answers that it has no header and the epoch or the size is
-- not zero, or its header is of a lower epoch, or of the same epoch and smaller.
pub check_update-accepts :
    (validate_name : Name → Bool) (d : Database) (db : d.Db) (update : Update) (info : NameInfo)
    → check_update validate_name d db update ≡ ok info
    → (validate_name update.name ≡ true)
      × (d.name_is_banned db update.name ≡ ok false)
      × (d.get_header_ban db update.name ≡ ok none)
      × (d.get_name_info db update.name ≡ ok info)
      × (((d.get_header db update.name ≡ err not_found)
            × ((0 < update.epoch_height) ⊎ (0 < update.sector_size)))
          ⊎ ((h : Header) × (d.get_header db update.name ≡ ok h)
              × ((h.epoch_height < update.epoch_height)
                  ⊎ ((h.epoch_height ≡ update.epoch_height)
                      × (h.sector_size < update.sector_size)))))
unfolding check_update validate_update
check_update-accepts validate_name d db update info e = ground arith

-- An entry that waits with a higher epoch and fewer sectors is replaced by an update of a lower
-- epoch with more sectors: the entry is set back to the older epoch, and no error is returned.
pub enqueue_locked-downgrades :
    (u : UpdateQueue) (peer : Hash) (update : Update) (info : NameInfo) (entry : UpdateQueueItem)
    → get bytes_dec update.name u.entries ≡ some entry
    → update.epoch_height < entry.epoch_height
    → entry.sector_size < update.sector_size
    → ((enqueue_locked u peer update info).1 ≡ none)
      × (item : UpdateQueueItem) × (get bytes_dec update.name
            (enqueue_locked u peer update info).0.entries
          ≡ some item)
      × (item.epoch_height < entry.epoch_height)
unfolding enqueue_locked new_item
enqueue_locked-downgrades u peer update info entry g older larger =
    rw (g, enqueue_locked)
      (rw (lt→ltb entry.sector_size update.sector_size larger) (
        refl,
        new_item peer update info,
        get-put_at bytes_dec update.name update.name (new_item peer update info) u.entries refl,
        older,
      ))

-- An update of a higher epoch that has no more sectors than the waiting entry leaves the epoch of
-- the entry as it was: it adds its peer, and no error is returned.
pub enqueue_locked-keeps_epoch :
    (u : UpdateQueue) (peer : Hash) (update : Update) (info : NameInfo) (entry : UpdateQueueItem)
    → get bytes_dec update.name u.entries ≡ some entry
    → entry.epoch_height < update.epoch_height
    → update.sector_size ≤ entry.sector_size
    → ((enqueue_locked u peer update info).1 ≡ none)
      × (item : UpdateQueueItem) × (get bytes_dec update.name
            (enqueue_locked u peer update info).0.entries
          ≡ some item)
      × (item.epoch_height ≡ entry.epoch_height)
      × (item.sector_size ≡ entry.sector_size)
unfolding enqueue_locked
enqueue_locked-keeps_epoch u peer update info entry g newer smaller =
    rw (g, enqueue_locked)
      (rw
        (
          ltb-false entry.sector_size update.sector_size smaller,
          ltb-false update.epoch_height entry.epoch_height (omega arith),
          ==-ne entry.epoch_height update.epoch_height (omega arith),
        )
        (refl, _, get-put_at bytes_dec update.name update.name _ u.entries refl, refl, refl))
