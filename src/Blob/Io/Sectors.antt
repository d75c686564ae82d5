-- ===== src/Blob/Io/Sectors.antt =====
-- blob/io.go: sectors read and written by their number, and the writes that are cut at the end.
use fnd.Base.{
  ℕ, ◌+◌, ◌-◌, ◌*◌, ◌≤◌, ◌<◌, ◌≡◌, ◌≢◌, refl, sym, ap, ◌∙◌, Option, none, some, ◌++◌, arith, ltb,
  ◌==◌, if◌then◌else◌, length, take, drop, replicate, ltb-false, lt→ltb, ==-refl, ==-ne,
  length-take, length-replicate, take_all, take-append, leb-false, ℕ_discrete, dec_lt,
}
use fnd.Base.Bytes.{
  Bytes, slice, overwrite, slice-overwrite_self, slice-overwrite_before, drop-overwrite_after,
}
use fnd.Blob.Consts.{size, sector_bytes, Sector, zero_sector}
use fnd.Blob.Io.{
  IoError, eof, copy, file_read_at, write_blob_at, read_sector, write_sector, writer_write,
}
use fnd.Blob.Io.ReadWrite.{copy-full, write_cut}

slice-write_sector_ne :
    (file : Bytes) (s : Sector) (i j : ℕ)
    → length s ≡ sector_bytes
    → i * sector_bytes ≤ length file
    → i ≢ j
    → slice (j * sector_bytes) sector_bytes (write_sector file i s)
      ≡ slice (j * sector_bytes) sector_bytes file
unfolding write_sector
slice-write_sector_ne file s i j l inside ne = elim (dec_lt i j) [
  | yes after ↦
      ap (take sector_bytes)
        (drop-overwrite_after (j * sector_bytes) (i * sector_bytes) s file (omega arith) inside)
  | no before ↦
      slice-overwrite_before (j * sector_bytes) sector_bytes (i * sector_bytes) s file (omega arith)
        inside
]

read_sector_got : (got : Bytes) → Sector × Option IoError
read_sector_got got =
    (copy zero_sector got, if ltb (length got) sector_bytes then some eof else none)

read_sector-slice :
    (file : Bytes) (id : ℕ)
    → read_sector file id ≡ read_sector_got (slice (id * sector_bytes) sector_bytes file)
unfolding read_sector read_sector_got file_read_at
read_sector-slice file id = refl

read_sector_got-full : (s : Sector) → length s ≡ sector_bytes → read_sector_got s ≡ (s, none)
unfolding read_sector_got
read_sector_got-full s l =
    rw (ltb-false (length s) sector_bytes (omega arith)) (cc (copy-full zero_sector s (sym l)))

slice-write_sector_self :
    (file : Bytes) (s : Sector) (i : ℕ)
    → length s ≡ sector_bytes
    → slice (i * sector_bytes) sector_bytes (write_sector file i s) ≡ s
unfolding write_sector
slice-write_sector_self file s i l =
    ap (λ n. slice (i * sector_bytes) n (overwrite (i * sector_bytes) s file)) (sym l)
    ∙ slice-overwrite_self (i * sector_bytes) s file

-- After a sector is written its number reads back the sector with no error, and every other number
-- reads what it read before.
pub read_sector-write_sector :
    (file : Bytes) (s : Sector) (i j : ℕ)
    → length s ≡ sector_bytes
    → i * sector_bytes ≤ length file
    → read_sector (write_sector file i s) j ≡ (if i == j then (s, none) else read_sector file j)
read_sector-write_sector file s i j l inside = elim (ℕ_discrete i j) [
  | yes same ↦
      rw (same, ==-refl j)
        (read_sector-slice (write_sector file j s) j
          ∙ ap read_sector_got (slice-write_sector_self file s j l)
          ∙ read_sector_got-full s l)
  | no other ↦ rw (==-ne i j other) (
      read_sector-slice (write_sector file i s) j
      ∙ ap read_sector_got (slice-write_sector_ne file s i j l inside other)
      ∙ sym (read_sector-slice file j))
]

-- A write that `WriteBlobAt` cuts at the end of the blob leaves zeros in the caller's buffer, in
-- place of every byte that was written.
pub write_blob_at-clobbers :
    (file p : Bytes) (off : ℕ)
    → off ≤ size
    → size < off + length p
    → (slice off (size - off) (write_blob_at file p off).file ≡ take (size - off) p)
      × (take (size - off) (write_blob_at file p off).buf ≡ replicate (size - off) 0)
write_blob_at-clobbers file p off h k = rw (write_cut file p off h k) (
  ap (λ n. slice off n (overwrite off cut file)) (sym cut_length)
      ∙ slice-overwrite_self off cut file,
  ap (λ n. take n (zeros ++ drop (size - off) p)) (sym zeros_length)
      ∙ take-append zeros (drop (size - off) p),
)
  where
    cut : Bytes
    cut = take (size - off) p

    zeros : Bytes
    zeros = replicate (size - off) 0

    cut_length : length (take (size - off) p) ≡ size - off
    cut_length = omega (arith, length-take (size - off) p)

    zeros_length : length (replicate {A = ℕ} (size - off) 0) ≡ size - off
    zeros_length = length-replicate (size - off) 0

-- A write of `Writer` that would pass the end of the blob puts zeros into the rest of the blob,
-- whatever the bytes are, reports them as written and gives no error.
pub writer_write-zeros :
    (file p : Bytes) (off : ℕ)
    → off < size
    → size < off + length p
    → writer_write file off p ≡ (
      size,
      record {
        file = overwrite off (replicate (size - off) 0) file;
        n = size - off;
        error = none;
        buf = replicate (size - off) 0 ++ drop (size - off) p;
      },
    )
unfolding writer_write
writer_write-zeros file p off h k = rw (leb-false size off h) (
    rw (lt→ltb (size - off) (length p) (omega arith))
      (cc (take_all zeros (length p) (omega (arith, zeros_length)), zeros_length, add_left)))
  where
    zeros : Bytes
    zeros = replicate (size - off) 0

    zeros_length : length (replicate {A = ℕ} (size - off) 0) ≡ size - off
    zeros_length = length-replicate (size - off) 0

    add_left : off + (size - off) ≡ size
    add_left = omega arith
