-- ===== src/Blob/Io.antt =====
-- blob/io.go over the content of an os.File. `ReadAt` and `WriteAt` of the standard library are
-- `file_read_at` and `file_write_at`; offsets are not negative.
pub mod ReadWrite
pub mod Sectors
use fnd.Base.{
  ℕ, zero, suc, ◌+◌, ◌-◌, ◌*◌, ◌≤◌, ◌<◌, ◌≡◌, Bool, true, false, Option, none, some, List, [], ◌∷◌,
  ◌++◌, ltb, leb, if◌then◌else◌, length, take, drop, replicate,
}
use fnd.Base.Bytes.{Bytes, slice, overwrite}
use fnd.Blob.Consts.{size, sector_bytes, Sector, zero_sector}

pub data IoError : Type 0 where
  eof write_beyond_blob_bounds write_failed : IoError

-- What a read leaves: the count, the error and the caller's buffer.
pub record ReadRes : Type 0 where
  pub n : ℕ
  pub error : Option IoError
  pub buf : Bytes

-- What a write leaves: the file, the count, the error and the caller's buffer.
pub record WriteRes : Type 0 where
  pub file : Bytes
  pub n : ℕ
  pub error : Option IoError
  pub buf : Bytes

-- `copy(dst, src)`
abbrev pub copy : Bytes → Bytes → Bytes
copy dst src = take (length dst) src ++ drop (length src) dst

-- `(*os.File).ReadAt`: short only at the end of the file, and then with io.EOF.
unfoldable pub file_read_at : Bytes → Bytes → ℕ → ReadRes
file_read_at file b off =
    let got = slice off (length b) file in
    record {
      n = length got;
      error = if ltb (length got) (length b) then some eof else none;
      buf = copy b got;
    }

-- `(*os.File).WriteAt`
unfoldable pub file_write_at : Bytes → Bytes → ℕ → WriteRes
file_write_at file b off = record {
  file = overwrite off b file;
  n = length b;
  error = none;
  buf = b;
}

-- `ReadBlobAt`
unfoldable pub read_blob_at : Bytes → Bytes → ℕ → ReadRes
unfolding file_read_at
read_blob_at file b off =
    if ltb size off
    then record { n = 0; error = some eof; buf = b }
    else (if ltb size (length b + off)
        then (let r = file_read_at file (replicate (size - off) 0) off in
            record {
              n = r.n;
              error = elim r.error [ none ↦ some eof | some e ↦ some e ];
              buf = copy b r.buf;
            })
        else file_read_at file b off)

-- `WriteBlobAt`. The buffer `buf` of zeros is copied over the caller's bytes when the write is cut.
unfoldable pub write_blob_at : Bytes → Bytes → ℕ → WriteRes
unfolding file_write_at
write_blob_at file b off =
    if ltb size off
    then record { file = file; n = 0; error = some write_beyond_blob_bounds; buf = b }
    else (if ltb size (length b + off)
        then (let buf = replicate (size - off) 0 in
            let w = file_write_at file (take (size - off) b) off in
            record {
              file = w.file;
              n = w.n;
              error = elim w.error [ none ↦ some write_beyond_blob_bounds | some e ↦ some e ];
              buf = copy b buf;
            })
        else file_write_at file b off)

-- `ReadSector`, with a uint8 sector id.
unfoldable pub read_sector : Bytes → ℕ → Sector × Option IoError
unfolding file_read_at
read_sector file id = let r = file_read_at file zero_sector (id * sector_bytes) in (r.buf, r.error)

-- `WriteSector`, with a uint16 sector id.
unfoldable pub write_sector : Bytes → ℕ → Sector → Bytes
unfolding file_write_at
write_sector file id sector = (file_write_at file sector (id * sector_bytes)).file

-- `(*Reader).Read`: the offset moves on by what was read.
unfoldable pub reader_read : Bytes → ℕ → Bytes → ℕ × ReadRes
unfolding file_read_at
reader_read file offset p =
    if leb size offset
    then (offset, record { n = 0; error = some eof; buf = p })
    else (let remaining = size - offset in
        if ltb remaining (length p)
        then (let r = file_read_at file (replicate remaining 0) offset in
            (offset + r.n, record { n = r.n; error = r.error; buf = copy p r.buf }))
        else (let r = file_read_at file p offset in (offset + r.n, r)))

-- `(*Writer).Write`: where the rest of the blob is too short, it is a buffer of zeros that is
-- written.
unfoldable pub writer_write : Bytes → ℕ → Bytes → ℕ × WriteRes
unfolding file_write_at
writer_write file offset p =
    if leb size offset
    then (offset, record { file = file; n = 0; error = some eof; buf = p })
    else (let remaining = size - offset in
        if ltb remaining (length p)
        then (let buf = replicate remaining 0 in
            let w = file_write_at file buf offset in
            (offset + w.n, record { file = w.file; n = w.n; error = w.error; buf = copy p buf }))
        else (let w = file_write_at file p offset in (offset + w.n, w)))
