-- ===== src/Blob/Transaction/Atomic.antt =====
-- blob/transaction.go: a session of sector writes, and what `Commit` and `Rollback` leave of it.
use fnd.Base.{
  ◌+◌, ◌*◌, ◌%◌, ◌≤◌, ◌≡◌, refl, sym, true, false, List, [], ◌∷◌, ◌++◌, arith, ok, length, drop,
  All, length-append, length-drop, append-nil, append_assoc,
}
use fnd.Base.Bytes.{Bytes, overwrite, overwrite-next, overwrite_whole}
use fnd.Blob.Consts.{Sector, sector_bytes, max_sectors, size}
use fnd.Blob.Transaction.{Tx, Disk, Faults, begin, lazy_initialize, write_sector, commit, rollback}
use fnd.Blob.Io

-- No call into the operating system fails.
abbrev pub no_faults : Faults
no_faults = record {
  clone_fails = false;
  write_fails = false;
  commit_fails = false;
  remove_fails = false;
  copied = 0;
}

-- The sectors written one after another, and the transaction after the last.
unfoldable pub write_all : List Sector → Tx → Tx
write_all [] t = t
write_all (s ∷ ss) t = write_all ss (write_sector no_faults s t).0

abbrev pub joined : List Sector → Bytes
joined [] = []
joined (s ∷ ss) = s ++ joined ss

-- A transaction that has written `front` over the start of a blob.
abbrev pub Written : Disk → Bytes → Tx → Type 0
Written d front t =
    (t.disk ≡ d)
    × (t.clone ≡ front ++ drop (length front) d.content)
    × (t.sector_size * sector_bytes ≡ length front)
    × (t.initialized ≡ true)
    × (t.temp_exists ≡ true)
    × (t.closed ≡ false)
    × (t.removed ≡ false)

write_sector-open :
    (s : Sector) (t : Tx)
    → t.initialized ≡ true
    → t.closed ≡ false
    → t.removed ≡ false
    → (write_sector no_faults s t).0 ≡ record t {
      clone = overwrite (t.sector_size * sector_bytes) s t.clone;
      sector_size = (t.sector_size + 1) % 65536;
    }
unfolding write_sector lazy_initialize Io.write_sector Io.file_write_at
write_sector-open s t i c r = ground arith

write_sector-Written :
    (d : Disk) (front s : Bytes) (t : Tx)
    → Written d front t
    → length s ≡ sector_bytes
    → length front + length s ≤ size
    → Written d (front ++ s) (write_sector no_faults s t).0
write_sector-Written d front s t (a, b, c, i, e, cl, r) h k = rw (write_sector-open s t i cl r) (
  a,
  rw (c, b) (overwrite-next front s d.content),
  omega (arith, length-append front s),
  i,
  e,
  cl,
  r,
)

write_all-Written :
    (d : Disk) (ss : List Sector) (front : Bytes) (t : Tx)
    → Written d front t
    → All (λ s. length s ≡ sector_bytes) ss
    → length front + length ss * sector_bytes ≤ size
    → Written d (front ++ joined ss) (write_all ss t)
unfolding write_all
write_all-Written d [] front t w h k = rw (append-nil front) w
write_all-Written d (s ∷ ss) front t w h k = rw (sym (append_assoc front s (joined ss))) (
    write_all-Written d ss (front ++ s) (write_sector no_faults s t).0
      (write_sector-Written d front s t w h.0 (omega (arith, h.0))) h.1
      (omega (arith, h.0, length-append front s)))

-- `begin` and the first read or write, which makes the clone.
begin-Written :
    (d : Disk) (s : Sector)
    → length s ≡ sector_bytes
    → Written d s (write_sector no_faults s (begin d)).0
unfolding write_sector lazy_initialize Io.write_sector Io.file_write_at begin
begin-Written d s h = (refl, overwrite-next [] s d.content, omega arith, refl, refl, refl, refl)

-- What a session leaves if it commits and if it rolls back.
abbrev pub Ends : Disk → Bytes → Tx → Type 0
Ends d content t =
    (t.disk ≡ d)
    × ((commit no_faults t).1 ≡ ok tt)
    × ((commit no_faults t).0.disk ≡ record { content = content; linked = d.linked })
    × ((commit no_faults t).0.temp_exists ≡ false)
    × ((rollback no_faults t).1 ≡ ok tt)
    × ((rollback no_faults t).0.disk ≡ d)
    × ((rollback no_faults t).0.temp_exists ≡ false)

Written-Ends :
    (d : Disk) (front : Bytes) (t : Tx)
    → Written d front t
    → length front ≤ length d.content
    → Ends d (front ++ drop (length front) d.content) t
unfolding commit rollback
Written-Ends d front t (a, b, c, i, e, cl, r) h =
    rw (a, b, i, e, cl, r) (refl, refl, whole, refl, refl, refl, refl)
  where
    content_length : length (front ++ drop (length front) d.content) ≡ length d.content
    content_length = omega (
      arith,
      length-append front (drop (length front) d.content),
      length-drop (length front) d.content,
    )

    whole :
        ◌≡◌ {A = Disk}
          (record {
            content = overwrite 0 (front ++ drop (length front) d.content) d.content;
            linked = d.linked;
          })
          (record { content = front ++ drop (length front) d.content; linked = d.linked })
    whole =
        rw (overwrite_whole (front ++ drop (length front) d.content) d.content content_length) refl

-- A transaction on a full blob writes some sectors, at most as many as fit, with nothing failing.
-- Until it ends the blob is as it was. If it commits, the blob starts with the sectors, and the
-- rest of it stays; if it rolls back, the blob is as it was. Both succeed and remove the temporary
-- file.
pub write_all-Ends :
    (d : Disk) (s : Sector) (ss : List Sector)
    → length d.content ≡ size
    → All (λ x. length x ≡ sector_bytes) (s ∷ ss)
    → length (s ∷ ss) ≤ max_sectors
    → Ends d
        (joined (s ∷ ss) ++ drop (length (s ∷ ss) * sector_bytes) d.content)
        (write_all (s ∷ ss) (begin d))
unfolding write_all
write_all-Ends d s ss full whole fits = rw (sym (joined_length (s ∷ ss) whole)) (
    Written-Ends d (joined (s ∷ ss)) (write_all ss (write_sector no_faults s (begin d)).0)
      (write_all-Written d ss s (write_sector no_faults s (begin d)).0 (begin-Written d s whole.0)
        whole.1 (omega (arith, whole.0)))
      (omega (arith, joined_length (s ∷ ss) whole)))
  where
    joined_length :
        (ss : List Sector)
        → All (λ x. length x ≡ sector_bytes) ss
        → length (joined ss) ≡ length ss * sector_bytes
    joined_length [] h = refl
    joined_length (s ∷ ss) h = omega (arith, h.0, length-append s (joined ss), joined_length ss h.1)
