-- ===== src/Protocol/UpdateQueue.antt =====
-- protocol/update_queue.go: the queue of updates that peers announce. A method that holds the mutex
-- is one step. `Enqueue` reads the queue's length before it takes the lock; here no other call
-- comes between. The name check of handshake/primitives is the parameter `validate_name`, and a
-- failure to send is the parameter `send_fails`.
pub mod Invariant
pub mod Fifo
pub mod Admission
use fnd.Base.{
  ℕ, ◌+◌, ◌-◌, ◌≡◌, Bool, true, false, not, Option, none, some, List, [], ◌∷◌, ◌++◌, ltb, leb, ◌==◌,
  ◌&&◌, if◌then◌else◌, Outcome, ok, err, panicked, ◌>>=◌, ◌>>◌, reject_if,
}
use fnd.Base.Bytes.{Bytes, bytes_dec}
use fnd.Base.GoMap.{Map, get, put, delete}
use fnd.Blob.Consts.{Hash, max_sectors}
use fnd.Store.Types.{Name, Header, NameInfo, PublicKey, Time}
use fnd.Store.Interface.{DbError, not_found, failed, Database}
use fnd.Protocol.PeerSet.{PeerSet}
use fnd.Protocol.PeerSet

pub record Update : Type 0 where
  pub name : Name
  pub epoch_height : ℕ
  pub sector_size : ℕ

pub record BlobReq : Type 0 where
  pub name : Name
  pub epoch_height : ℕ
  pub sector_size : ℕ

pub record UpdateQueueItem : Type 0 where
  pub peer_ids : PeerSet Hash
  pub name : Name
  pub epoch_height : ℕ
  pub sector_size : ℕ
  pub pub_key : PublicKey
  pub height : ℕ
  pub disposed : Bool

pub record UpdateQueue : Type 0 where
  pub max_len : ℕ
  pub entries : Map Name UpdateQueueItem
  pub queue : List Name
  pub queue_len : ℕ

pub data QueueError : Type 0 where
  max_len_reached epoch_updated sector_updated stale_sector import_incomplete : QueueError
  invalid_name name_banned header_banned send_failed : QueueError
  db_error : DbError → QueueError
  -- No error of the source: the store panics on bytes that it did not write.
  panics : QueueError

-- `Dispose`
pub dispose : UpdateQueueItem → UpdateQueueItem
dispose item = record item { disposed = true }

-- `NewUpdateQueue`, less the handles that it keeps.
unfoldable pub new_update_queue : ℕ → UpdateQueue
new_update_queue max_len = record { max_len = max_len; entries = []; queue = []; queue_len = 0 }

-- `errors.Wrap` of an error of the store.
abbrev pub wrap {ℓ} : {A : Type ℓ} → Outcome DbError A → Outcome QueueError A
wrap (ok a) = ok a
wrap (err e) = err (db_error e)
wrap panicked = panicked

-- A header that is missing counts as epoch 0 and size 0.
abbrev pub heights_of : Outcome DbError Header → Outcome QueueError (ℕ × ℕ)
heights_of (ok h) = ok (h.epoch_height, h.sector_size)
heights_of (err not_found) = ok (0, 0)
heights_of (err failed) = err (db_error failed)
heights_of panicked = panicked

abbrev pub is_banned : Time → Bool
is_banned none = false
is_banned (some t) = true

module _ (validate_name : Name → Bool) (d : Database) where
  open d use {
    Db, get_initial_import_complete, get_name_info, name_is_banned, get_header, get_header_ban,
  }

  -- `validateUpdate`
  unfoldable pub validate_update : Db → Name → Outcome QueueError (Unit {0})
  validate_update db name = do
    reject_if (not (validate_name name)) invalid_name
    name_ban ← wrap (name_is_banned db name)
    reject_if name_ban name_banned
    header_ban ← wrap (get_header_ban db name)
    reject_if (is_banned header_ban) header_banned

  -- The checks of `Enqueue` against the store, up to the lock.
  unfoldable pub check_update : Db → Update → Outcome QueueError NameInfo
  unfolding validate_update
  check_update db update = do
    validate_update db update.name
    name_info ← wrap (get_name_info db update.name)
    (epoch_height, sector_size) ← heights_of (get_header db update.name)
    reject_if (ltb update.epoch_height epoch_height) epoch_updated
    reject_if ((epoch_height == update.epoch_height) && ltb update.sector_size sector_size)
        stale_sector
    reject_if ((epoch_height == update.epoch_height) && (sector_size == update.sector_size))
        sector_updated
    ok name_info

-- The entry of an update that is new or larger.
unfoldable pub new_item : Hash → Update → NameInfo → UpdateQueueItem
new_item peer_id update name_info = record {
  peer_ids = PeerSet.new_peer_set bytes_dec (peer_id ∷ []);
  name = update.name;
  epoch_height = update.epoch_height;
  sector_size = update.sector_size;
  pub_key = name_info.public_key;
  height = name_info.import_height;
  disposed = false;
}

-- What `Enqueue` does under the lock.
unfoldable pub enqueue_locked :
    UpdateQueue → Hash → Update → NameInfo → UpdateQueue × Option QueueError
unfolding new_item
enqueue_locked u peer_id update name_info = elim (get bytes_dec update.name u.entries) [
  | none ↦ (
    record u {
      entries = put bytes_dec update.name (new_item peer_id update name_info) u.entries;
      queue = u.queue ++ update.name ∷ [];
      queue_len = u.queue_len + 1;
    },
    none,
  )
  | some entry ↦
      if ltb entry.sector_size update.sector_size
      then (
        record u {
          entries = put bytes_dec update.name (new_item peer_id update name_info) u.entries;
        },
        none,
      )
      else (if ltb update.epoch_height entry.epoch_height
          then (u, some epoch_updated)
          else (if (entry.epoch_height == update.epoch_height)
                && ltb update.sector_size entry.sector_size
              then (u, some stale_sector)
              else (
                record u {
                  entries =
                      put bytes_dec update.name
                        (record entry { peer_ids = PeerSet.add bytes_dec entry.peer_ids peer_id })
                        u.entries;
                },
                none,
              )))
]

-- What a call of `Enqueue` leaves: the queue, the message that it sends, and its error.
pub record Enqueued : Type 0 where
  pub after : UpdateQueue
  pub sent : Option (Hash × BlobReq)
  pub error : Option QueueError

module _ (validate_name : Name → Bool) (d : Database) where
  open d use {Db, get_initial_import_complete}

  abbrev pub refused : UpdateQueue → QueueError → Enqueued
  refused u e = record { after = u; sent = none; error = some e }

  abbrev pub ask_for_proof : UpdateQueue → Bool → Hash → Update → Enqueued
  ask_for_proof u send_fails peer_id update = record {
    after = u;
    sent = some (
      peer_id,
      record { name = update.name; epoch_height = update.epoch_height; sector_size = max_sectors },
    );
    error = if send_fails then some send_failed else none;
  }

  abbrev pub lock_and_enter : UpdateQueue → Hash → Update → Outcome QueueError NameInfo → Enqueued
  lock_and_enter u peer_id update (ok info) =
      let r = enqueue_locked u peer_id update info in
      record { after = r.0; sent = none; error = r.1 }
  lock_and_enter u peer_id update (err e) = refused u e
  lock_and_enter u peer_id update panicked = refused u panics

  -- `Enqueue` from the result of the initial-import read on.
  abbrev pub enqueue_imported :
      Db → Bool → UpdateQueue → Hash → Update → Outcome DbError Bool → Enqueued
  enqueue_imported db send_fails u peer_id update (ok true) =
      if update.sector_size == 0
      then ask_for_proof u send_fails peer_id update
      else lock_and_enter u peer_id update (check_update validate_name d db update)
  enqueue_imported db send_fails u peer_id update (ok false) = refused u import_incomplete
  enqueue_imported db send_fails u peer_id update (err e) = refused u (db_error e)
  enqueue_imported db send_fails u peer_id update panicked = refused u panics

  -- `Enqueue`
  unfoldable pub enqueue : Db → Bool → UpdateQueue → Hash → Update → Enqueued
  enqueue db send_fails u peer_id update =
      if leb u.max_len u.queue_len
      then refused u max_len_reached
      else enqueue_imported db send_fails u peer_id update (get_initial_import_complete db)

-- `Dequeue`
unfoldable pub dequeue : UpdateQueue → UpdateQueue × Option UpdateQueueItem
dequeue u = elim u.queue [
  | [] ↦ (u, none)
  | name ∷ rest ↦ (
    record u {
      entries = delete bytes_dec name u.entries;
      queue = rest;
      queue_len = u.queue_len - 1;
    },
    get bytes_dec name u.entries,
  )
]

-- The keys that `reapDequeuedUpdates` collects.
unfoldable pub to_delete : Map Name UpdateQueueItem → List Name
to_delete [] = []
to_delete ((k, item) ∷ m) = let rest = to_delete m in if item.disposed then k ∷ rest else rest

unfoldable pub delete_all : List Name → Map Name UpdateQueueItem → Map Name UpdateQueueItem
delete_all [] m = m
delete_all (k ∷ ks) m = delete_all ks (delete bytes_dec k m)

-- `reapDequeuedUpdates`
unfoldable pub reap_dequeued_updates : UpdateQueue → UpdateQueue
unfolding to_delete delete_all
reap_dequeued_updates u = record u { entries = delete_all (to_delete u.entries) u.entries }
