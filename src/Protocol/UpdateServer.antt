-- ===== src/Protocol/UpdateServer.antt =====
-- protocol/update_server.go: the answer to a request for a name's latest update, under the read
-- lock of the name. A failure to send is logged. `NewNilUpdate` is an answer that names the name
-- alone.
use fnd.Base.{
  ℕ, ◌<◌, ◌≡◌, ◌≢◌, refl, arith, Bool, true, false, [], ltb, ◌==◌, ◌||◌, if◌then◌else◌, Outcome, ok,
  err, panicked,
}
use fnd.Base.Bytes.{bytes_dec}
use fnd.Store.Types.{Name, Header}
use fnd.Store.Interface.{DbError}
use fnd.Util.MultiLocker.{Ran, returns, panics, try_rlock, runlock}
use fnd.Util.MultiLocker.Invariant.{mode, broken, rlock, call, Refines, call-Refines}
use fnd.Protocol.UpdateQueue.{Update}
use fnd.Protocol.SectorServer.{Locks}
use fnd.Protocol.SectorServer.Locking.{SameModes, released, refused_reader, rlock-returns}

pub record UpdateReq : Type 0 where
  pub name : Name
  pub epoch_height : ℕ
  pub sector_size : ℕ

pub data Answer : Type 0 where
  nil_update : Name → Answer
  update : Update → Answer
  crashes : Answer

-- What is sent for a header that was read, or for the error.
unfoldable pub answer_of : UpdateReq → Outcome DbError Header → Answer
answer_of msg (err e) = nil_update msg.name
answer_of msg panicked = crashes
answer_of msg (ok header) =
    if ltb header.sector_size msg.sector_size || (header.sector_size == msg.sector_size)
    then nil_update msg.name
    else update (record {
      name = msg.name;
      epoch_height = header.epoch_height;
      sector_size = header.sector_size;
    })

abbrev pub unlocked : Ran Name (Unit {0}) → Answer → Locks × Answer
unlocked (returns locks _) a = (locks, a)
unlocked panics a = ([], crashes)

abbrev pub with_rlock : UpdateReq → Outcome DbError Header → Ran Name Bool → Locks × Answer
with_rlock msg header (returns locks true) =
    unlocked (runlock bytes_dec msg.name locks) (answer_of msg header)
with_rlock msg header (returns locks false) = (locks, nil_update msg.name)
with_rlock msg header panics = ([], crashes)

-- `UpdateReqHandler`, from what the store answers for the header.
unfoldable pub update_req_handler : Outcome DbError Header → Locks → UpdateReq → Locks × Answer
update_req_handler header locks msg = with_rlock msg header (try_rlock bytes_dec msg.name locks)

-- An answer with an update tells of a header that was read and is larger than what the peer has.
abbrev pub Tells : UpdateReq → Outcome DbError Header → Update → Type 0
Tells msg o u =
    (header : Header) × (o ≡ ok header)
    × (msg.sector_size < header.sector_size)
    × (u ≡ record {
      name = msg.name;
      epoch_height = header.epoch_height;
      sector_size = header.sector_size;
    })

answer_of-Tells :
    (msg : UpdateReq) (o : Outcome DbError Header) (u : Update)
    → answer_of msg o ≡ update u
    → Tells msg o u
unfolding answer_of
answer_of-Tells msg (err e) u h = absurd cc
answer_of-Tells msg panicked u h = absurd cc
answer_of-Tells msg (ok header) u h = (header, refl, ground arith, ground arith)

handled :
    (msg : UpdateReq) (o : Outcome DbError Header) (m : Locks) (r : Ran Name Bool)
    → Refines bytes_dec rlock msg.name m r
    → SameModes m (with_rlock msg o r).0
      × ((u : Update) → (with_rlock msg o r).1 ≡ update u → Tells msg o u)
handled msg o m (returns m' true) f =
    let back = released msg.name m m' (runlock bytes_dec msg.name m') f refl in
    rw (back.1) (back.2, answer_of-Tells msg o)
handled msg o m (returns m' false) f = (refused_reader msg.name m m' f, λ u q. absurd cc)
handled msg o m panics f = absurd (rlock-returns msg.name m f)

-- A request for an update leaves the mode of every lock as it was, if the lock of the name was
-- sound. It is answered with an update only if the stored header could be read and has more sectors
-- than the peer; the update is then the header's.
pub update_req_handler-Tells :
    (o : Outcome DbError Header) (m : Locks) (msg : UpdateReq)
    → mode bytes_dec m msg.name ≢ broken
    → SameModes m (update_req_handler o m msg).0
      × ((u : Update) → (update_req_handler o m msg).1 ≡ update u → Tells msg o u)
unfolding update_req_handler call
update_req_handler-Tells o m msg b =
    handled msg o m (try_rlock bytes_dec msg.name m) (call-Refines bytes_dec rlock msg.name m b)
