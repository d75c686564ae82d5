-- ===== src/Blob/Io/ReadWrite.antt =====
-- blob/io.go: reads after writes, and the bounds of a blob.
use Prim.Native.Nat.{min}
use fnd.Base.{
  ℕ, ◌+◌, ◌-◌, ◌≤◌, ◌<◌, ◌≡◌, refl, sym, ap, ◌∙◌, none, some, ◌++◌, arith, length, take, drop,
  replicate, ltb-false, lt→ltb, length-take, length-replicate, ◌↔◌, dec_lt, append-nil, take_all,
  drop_all,
}
use fnd.Base.Bytes.{Bytes, slice, overwrite, length-overwrite, slice-overwrite_self}
use fnd.Blob.Consts.{size}
use fnd.Blob.Io.{write_beyond_blob_bounds, copy, file_read_at, read_blob_at, write_blob_at}

pub copy-full : (dst src : Bytes) → length dst ≡ length src → copy dst src ≡ src
copy-full dst src h =
    rw (take_all src (length dst) (omega arith), drop_all dst (length src) (omega arith))
      (append-nil src)

-- A file read that finds all it asks for.
pub file_read_at-full :
    (file b got : Bytes) (off : ℕ)
    → slice off (length b) file ≡ got
    → length got ≡ length b
    → file_read_at file b off ≡ record { n = length b; error = none; buf = got }
unfolding file_read_at
file_read_at-full file b got off e l =
    rw e (rw (ltb-false (length got) (length b) (omega arith)) (cc (copy-full b got (sym l), l)))

write_whole :
    (file p : Bytes) (off : ℕ)
    → off + length p ≤ size
    → write_blob_at file p off
      ≡ record { file = overwrite off p file; n = length p; error = none; buf = p }
unfolding write_blob_at
write_whole file p off h =
    rw (ltb-false size off (omega arith)) (rw (ltb-false size (length p + off) (omega arith)) refl)

pub write_cut :
    (file p : Bytes) (off : ℕ)
    → off ≤ size
    → size < off + length p
    → write_blob_at file p off ≡ record {
      file = overwrite off (take (size - off) p) file;
      n = size - off;
      error = some write_beyond_blob_bounds;
      buf = replicate (size - off) 0 ++ drop (size - off) p;
    }
unfolding write_blob_at
write_cut file p off h k = rw (ltb-false size off h) (
    rw (lt→ltb size (length p + off) (omega arith)) (
      cc (
        take_all zeros (length p) (omega (arith, length-replicate {0} {A = ℕ} (size - off) 0)),
        length-replicate {0} {A = ℕ} (size - off) 0,
        cut,
      )))
  where
    zeros : Bytes
    zeros = replicate (size - off) 0

    cut : length (take (size - off) p) ≡ size - off
    cut = omega (arith, length-take (size - off) p)

write_refused :
    (file p : Bytes) (off : ℕ)
    → size < off
    → write_blob_at file p off
      ≡ record { file = file; n = 0; error = some write_beyond_blob_bounds; buf = p }
unfolding write_blob_at
write_refused file p off h = rw (lt→ltb size off h) refl

read_whole :
    (file b got : Bytes) (off : ℕ)
    → off + length b ≤ size
    → slice off (length b) file ≡ got
    → length got ≡ length b
    → read_blob_at file b off ≡ record { n = length b; error = none; buf = got }
unfolding read_blob_at
read_whole file b got off h e l =
    rw (ltb-false size off (omega arith))
      (rw (ltb-false size (length b + off) (omega arith)) (file_read_at-full file b got off e l))

-- What `WriteBlobAt` writes inside the bounds of a blob it writes whole, and `ReadBlobAt` into a
-- buffer of that length reads it back, without an error.
pub read_blob_at-write_blob_at :
    (file p b : Bytes) (off : ℕ)
    → off + length p ≤ size
    → length b ≡ length p
    → ((write_blob_at file p off).error ≡ none)
      × ((write_blob_at file p off).n ≡ length p)
      × (read_blob_at (write_blob_at file p off).file b off
          ≡ record { n = length p; error = none; buf = p })
read_blob_at-write_blob_at file p b off h l = rw (write_whole file p off h) (
  refl,
  refl,
  read_whole (overwrite off p file) b p off (omega arith)
        (ap (λ n. slice off n (overwrite off p file)) l ∙ slice-overwrite_self off p file) (sym l)
      ∙ ap (λ n. record { n = n; error = none; buf = p }) l,
)

-- On every branch of `WriteBlobAt` a full blob keeps its length, the count is what fits before the
-- end, and there is no error exactly if all of it fits.
pub write_blob_at-bounds :
    (file p : Bytes) (off : ℕ)
    → length file ≡ size
    → (length (write_blob_at file p off).file ≡ size)
      × ((write_blob_at file p off).n ≡ min (length p) (size - off))
      × (((write_blob_at file p off).error ≡ none) ↔ (off + length p ≤ size))
write_blob_at-bounds file p off h = elim (dec_lt size off) [
  | yes far ↦
      rw (write_refused file p off far) (h, omega arith, ((λ e. cc), λ q. absurd (omega arith)))
  | no near ↦ elim (dec_lt size (off + length p)) [
    | yes long ↦
        let cut : length (take (size - off) p) ≡ size - off =
          omega (arith, length-take (size - off) p) in
        rw (write_cut file p off (omega arith) long) (
          length-overwrite off (take (size - off) p) file (omega arith) ∙ h,
          omega arith,
          ((λ e. cc), λ q. absurd (omega arith)),
        )
    | no short ↦ rw (write_whole file p off (omega arith)) (
      length-overwrite off p file (omega arith) ∙ h,
      omega arith,
      ((λ e. omega arith), λ q. refl),
    )
  ]
]
