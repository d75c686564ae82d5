-- ===== src/Blob/Transaction.antt =====
-- blob/transaction.go, with the callbacks of blob/blob.go. The state is the blob's file, the clone
-- that the transaction writes to, and its flags. Each method holds the mutex. Where a call into the
-- operating system can fail, `Faults` says whether it does; a failure while committing panics.
pub mod Invariant
pub mod Atomic
use fnd.Base.{
  ℕ, zero, suc, ◌+◌, ◌*◌, ◌%◌, ◌/◌, ◌≡◌, Bool, true, false, not, Option, none, some, List, [], ◌∷◌,
  ltb, ◌==◌, ◌&&◌, ◌||◌, if◌then◌else◌, Outcome, ok, err, panicked, replicate, take, length, ◌-◌,
}
use fnd.Base.Bytes.{Bytes, overwrite}
use fnd.Blob.Consts.{size, sector_bytes, Sector}
use fnd.Blob.Io
use fnd.Blob.Io.{ReadRes, WriteRes, write_failed, read_blob_at, write_blob_at}

pub data TxError : Type 0 where
  transaction_closed transaction_removed : TxError
  seek_not_multiple seek_before_written seek_beyond_bounds io_failed : TxError

pub data Whence : Type 0 where
  seek_start seek_current seek_end other : Whence

-- The content of the blob's file, if the file is in the directory.
pub record Disk : Type 0 where
  pub content : Bytes
  pub linked : Bool

-- `clone` is the content of `t.f`, and `temp_exists` says that its temporary file is in the
-- directory.
pub record Tx : Type 0 where
  pub disk : Disk
  pub clone : Bytes
  pub temp_exists : Bool
  pub sector_size : ℕ
  pub initialized : Bool
  pub closed : Bool
  pub removed : Bool

-- Which calls fail; `copied` is how many bytes a write or a commit that fails has copied.
pub record Faults : Type 0 where
  pub clone_fails : Bool
  pub write_fails : Bool
  pub commit_fails : Bool
  pub remove_fails : Bool
  pub copied : ℕ

-- What a method leaves: the transaction and its result.
abbrev pub Ran : Type 0 → Type 0
Ran A = Tx × Outcome TxError A

-- `Transaction` of blob/blob.go
unfoldable pub begin : Disk → Tx
begin disk = record {
  disk = disk;
  clone = [];
  temp_exists = false;
  sector_size = 0;
  initialized = false;
  closed = false;
  removed = false;
}

-- `Seek`, which takes no lock and looks at no flag. A negative offset fails one of the first two
-- checks.
unfoldable pub seek : ℕ → Whence → Tx → Ran ℕ
seek off whence t =
    if not (off % sector_bytes == 0)
    then (t, err seek_not_multiple)
    else (if ltb off (t.sector_size * sector_bytes)
        then (t, err seek_before_written)
        else elim whence [
          | seek_start ↦
              if ltb size off
              then (t, err seek_beyond_bounds)
              else (record t { sector_size = off / sector_bytes % 65536 }, ok off)
          | seek_current ↦ (t, ok off)
          | seek_end ↦ (t, ok off)
          | other ↦ (t, panicked)
        ])

-- `lazyInitialize`, with `txCloner` as its cloner.
unfoldable pub lazy_initialize : Bool → Tx → Ran (Unit {0})
lazy_initialize fails t =
    if t.initialized
    then (t, ok tt)
    else (if fails
        then (t, err io_failed)
        else (record t { clone = t.disk.content; temp_exists = true; initialized = true }, ok tt))

-- What follows the guards of a read or a write: `act` runs on the clone.
abbrev pub on_clone : {A : Type 0} → (Tx → Ran A) → Ran (Unit {0}) → Ran A
on_clone act (t, ok _) = act t
on_clone act (t, err e) = (t, err e)
on_clone act (t, panicked) = (t, panicked)

-- The guards that the reads and writes share.
abbrev pub guarded : {A : Type 0} → Tx → Ran A → Ran A
guarded t next =
    if t.closed
    then (t, err transaction_closed)
    else (if t.removed then (t, err transaction_removed) else next)

-- `ReadSector`
unfoldable pub read_sector : Faults → ℕ → Tx → Ran Sector
unfolding lazy_initialize
read_sector f id t =
    guarded t
      (on_clone (λ t'. (t', ok (Io.read_sector t'.clone id).0)) (lazy_initialize f.clone_fails t))

-- `ReadAt`
unfoldable pub read_at : Faults → Bytes → ℕ → Tx → Ran ReadRes
unfolding lazy_initialize
read_at f p off t =
    guarded t
      (on_clone (λ t'. (t', ok (read_blob_at t'.clone p off))) (lazy_initialize f.clone_fails t))

-- `WriteSector`: the counter is a uint16.
unfoldable pub write_sector : Faults → Sector → Tx → Ran (Unit {0})
unfolding lazy_initialize
write_sector f sector t = guarded t (
    on_clone
      (λ t'.
        if f.write_fails
        then (
          record t' { clone = Io.write_sector t'.clone t'.sector_size (take f.copied sector) },
          err io_failed,
        )
        else (
          record t' {
            clone = Io.write_sector t'.clone t'.sector_size sector;
            sector_size = (t'.sector_size + 1) % 65536;
          },
          ok tt,
        ))
      (lazy_initialize f.clone_fails t))

-- A write that fails in the file; the one beyond the bounds is refused before.
unfoldable pub failed_write : ℕ → Bytes → Bytes → ℕ → WriteRes
failed_write copied file p off =
    if ltb size off
    then write_blob_at file p off
    else (let part = take copied (take (size - off) p) in
        record {
          file = overwrite off part file;
          n = length part;
          error = some write_failed;
          buf = (write_blob_at file p off).buf;
        })

abbrev pub written_at : Faults → Bytes → Bytes → ℕ → WriteRes
written_at f file p off =
    if f.write_fails then failed_write f.copied file p off else write_blob_at file p off

-- `WriteAt`
unfoldable pub write_at : Faults → Bytes → ℕ → Tx → Ran WriteRes
unfolding lazy_initialize
write_at f p off t = guarded t (
    on_clone (λ t'. let w = written_at f t'.clone p off in (record t' { clone = w.file }, ok w))
      (lazy_initialize f.clone_fails t))

-- `Truncate`. It does not look at `closed`; removing a temporary file that is gone fails.
unfoldable pub truncate : Faults → Tx → Ran (Unit {0})
truncate f t =
    if t.removed
    then (t, err transaction_removed)
    else (if t.initialized && (f.remove_fails || not t.temp_exists)
        then (t, err io_failed)
        else (if f.clone_fails
            then (record t { temp_exists = t.temp_exists && not t.initialized }, err io_failed)
            else (
              record t { clone = replicate size 0; temp_exists = true; initialized = true },
              ok tt,
            )))

-- `txCommitter`: the bytes of the clone, copied over the blob's from the start.
abbrev pub committed : Tx → Disk
committed t = record { content = overwrite 0 t.clone t.disk.content; linked = t.disk.linked }

-- What `txCommitter` leaves when its copy fails.
abbrev pub partly_committed : ℕ → Tx → Disk
partly_committed n t = record {
  content = overwrite 0 (take n t.clone) t.disk.content;
  linked = t.disk.linked;
}

-- `Commit`, with `txCommitter` and `txRemover` of blob/blob.go.
unfoldable pub commit : Faults → Tx → Ran (Unit {0})
commit f t =
    if t.closed
    then (t, err transaction_closed)
    else (if t.removed
        then (if f.remove_fails || not t.disk.linked then (t, panicked) else (
          record t { disk = record { content = t.disk.content; linked = false }; closed = true },
          ok tt,
        ))
        else (if t.initialized
            then (if f.commit_fails
                then (record t { disk = partly_committed f.copied t }, panicked)
                else (if f.remove_fails || not t.temp_exists
                    then (record t { disk = committed t }, panicked)
                    else (
                      record t { disk = committed t; temp_exists = false; closed = true },
                      ok tt,
                    )))
            else (record t { closed = true }, ok tt)))

-- `Rollback`
unfoldable pub rollback : Faults → Tx → Ran (Unit {0})
rollback f t =
    if t.closed
    then (t, err transaction_closed)
    else (if not t.initialized || t.removed
        then (record t { closed = true }, ok tt)
        else (if f.remove_fails || not t.temp_exists
            then (t, panicked)
            else (record t { temp_exists = false; closed = true }, ok tt)))

-- `Remove`
unfoldable pub remove : Faults → Tx → Ran (Unit {0})
remove f t =
    if t.closed
    then (t, err transaction_closed)
    else (if not t.initialized
        then (record t { removed = true }, ok tt)
        else (if f.remove_fails || not t.temp_exists
            then (record t { removed = true }, panicked)
            else (record t { removed = true; temp_exists = false }, ok tt)))
