-- ===== src/Tests/Queues.antt =====
-- Runs of protocol/update_queue.go.
use fnd.Base.{
  ℕ, ◌<◌, ◌≡◌, ◌⊎◌, refl, Bool, true, false, List, [], ◌∷◌, none, some, ok, err, ℕ_discrete,
}
use fnd.Base.Bytes.{bytes_dec, cons_dec}
use fnd.Base.GoMap.{get, put}
use fnd.Blob.Consts.{Hash}
use fnd.Store.Types.{Name, Header, NameInfo}
use fnd.Store.Interface.{Database, not_found}
use fnd.Protocol.UpdateQueue.{
  Update, UpdateQueueItem, UpdateQueue, new_update_queue, new_item, validate_update, check_update,
  enqueue_locked, enqueue, dequeue,
}
use fnd.Protocol.UpdateQueue.Invariant.{IsValid, Call, enqueues, run, after_call, run-IsValid}
use fnd.Protocol.UpdateQueue.Fifo.{dequeue_times, dequeue-position}
use fnd.Protocol.UpdateQueue.Admission.{check_update-accepts}

abbrev peer_1 : Hash
peer_1 = 1 ∷ []

abbrev name_a : Name
name_a = 97 ∷ []

abbrev name_b : Name
name_b = 98 ∷ []

abbrev info_of : Name → NameInfo
info_of name = record { name = name; public_key = 2 ∷ []; import_height = 100 }

-- A store that knows every name, bans none and has no header.
abbrev blank_store : Database
blank_store = record {
  Db = Unit {0};
  get_initial_import_complete = λ db. ok true;
  get_last_name_import_height = λ db. ok 200;
  get_name_info = λ db name. ok (info_of name);
  name_is_banned = λ db name. ok false;
  get_header = λ db name. err not_found;
  get_sector_hashes = λ db name. err not_found;
  get_header_ban = λ db name. ok none;
  get_equivocation_proof = λ db name. err not_found;
  set_header = λ db h hashes. ok tt;
  set_header_ban = λ db name t. ok tt;
  set_equivocation_proof = λ db name proof. ok tt;
}

abbrev all_names : Name → Bool
all_names name = true

abbrev update_of : Name → ℕ → ℕ → Update
update_of name epoch_height sector_size = record {
  name = name;
  epoch_height = epoch_height;
  sector_size = sector_size;
}

abbrev two_calls : List (Call all_names blank_store)
two_calls =
    enqueues tt false peer_1 (update_of name_a 5 10)
    ∷ enqueues tt false peer_1 (update_of name_b 5 20)
    ∷ []

abbrev two_queued : UpdateQueue
two_queued = run all_names blank_store (new_update_queue 4) two_calls

run-IsValid_example : IsValid (run all_names blank_store (new_update_queue 4) two_calls)
run-IsValid_example = run-IsValid all_names blank_store 4 two_calls

two_queued-IsValid : IsValid two_queued
two_queued-IsValid = run-IsValid all_names blank_store 4 two_calls

second_queued : two_queued.queue ≡ name_a ∷ name_b ∷ []
unfolding run after_call enqueue check_update validate_update enqueue_locked new_update_queue
    new_item get put bytes_dec cons_dec ℕ_discrete
second_queued = refl

dequeue-position_example :
    (item : UpdateQueueItem) × (get bytes_dec name_b two_queued.entries ≡ some item)
    × ((dequeue (dequeue_times 1 two_queued)).1 ≡ some item)
    × (item.name ≡ name_b)
dequeue-position_example =
    dequeue-position 1 two_queued name_b two_queued-IsValid (rw second_queued refl)

check_update-accepts_example :
    (all_names name_a ≡ true)
    × (blank_store.name_is_banned tt name_a ≡ ok false)
    × (blank_store.get_header_ban tt name_a ≡ ok none)
    × (blank_store.get_name_info tt name_a ≡ ok (info_of name_a))
    × (((blank_store.get_header tt name_a ≡ err not_found) × ((0 < 5) ⊎ (0 < 10)))
        ⊎ ((h : Header) × (blank_store.get_header tt name_a ≡ ok h)
            × ((h.epoch_height < 5) ⊎ ((h.epoch_height ≡ 5) × (h.sector_size < 10)))))
unfolding check_update validate_update
check_update-accepts_example =
    check_update-accepts all_names blank_store tt (update_of name_a 5 10) (info_of name_a) refl

abbrev waiting : UpdateQueueItem
waiting = new_item peer_1 (update_of name_a 5 10) (info_of name_a)

abbrev one_queued : UpdateQueue
one_queued = record {
  max_len = 4;
  entries = (name_a, waiting) ∷ [];
  queue = name_a ∷ [];
  queue_len = 1;
}

waiting_found : get bytes_dec name_a one_queued.entries ≡ some waiting
unfolding get bytes_dec cons_dec ℕ_discrete
waiting_found = refl
