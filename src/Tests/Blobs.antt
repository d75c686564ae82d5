-- ===== src/Tests/Blobs.antt =====
-- Runs of blob/io.go and blob/transaction.go.
use fnd.Base.{
  ℕ, ◌+◌, ◌-◌, ◌*◌, ◌≤◌, ◌≡◌, ◌↔◌, refl, arith, [], ◌∷◌, ◌++◌, none, true, length, drop, replicate,
  length-replicate,
}
use Prim.Native.Nat.{min}
use fnd.Base.Bytes.{Bytes}
use fnd.Blob.Consts.{size, Sector, sector_bytes}
use fnd.Blob.Io.{read_blob_at, write_blob_at}
use fnd.Blob.Io.ReadWrite.{read_blob_at-write_blob_at, write_blob_at-bounds}
use fnd.Blob.Transaction.{Disk, Tx, begin}
use fnd.Blob.Transaction.Invariant.{apply, apply-isolated, writes_sector}
use fnd.Blob.Transaction.Atomic.{no_faults, write_all, joined, Ends, write_all-Ends}

abbrev blank : Bytes
blank = replicate size 0

abbrev three : Bytes
three = 1 ∷ 2 ∷ 3 ∷ []

abbrev sevens : Sector
sevens = replicate sector_bytes 7

abbrev nines : Sector
nines = replicate sector_bytes 9

blank-length : length blank ≡ size
blank-length = length-replicate {0} {A = ℕ} size 0

sevens-length : length sevens ≡ sector_bytes
sevens-length = length-replicate {0} {A = ℕ} sector_bytes 7

nines-length : length nines ≡ sector_bytes
nines-length = length-replicate {0} {A = ℕ} sector_bytes 9

abbrev blank_disk : Disk
blank_disk = record { content = blank; linked = true }

abbrev ended_tx : Tx
ended_tx = record (begin blank_disk) { closed = true }

read_blob_at-write_blob_at_example :
    ((write_blob_at [] three 2).error ≡ none)
    × ((write_blob_at [] three 2).n ≡ 3)
    × (read_blob_at (write_blob_at [] three 2).file (0 ∷ 0 ∷ 0 ∷ []) 2
        ≡ record { n = 3; error = none; buf = three })
read_blob_at-write_blob_at_example =
    read_blob_at-write_blob_at [] three (0 ∷ 0 ∷ 0 ∷ []) 2 (omega arith) refl

write_blob_at-bounds_example :
    (length (write_blob_at blank three (size - 1)).file ≡ size)
    × ((write_blob_at blank three (size - 1)).n ≡ min (length three) (size - (size - 1)))
    × (((write_blob_at blank three (size - 1)).error ≡ none) ↔ (size - 1 + length three ≤ size))
write_blob_at-bounds_example = write_blob_at-bounds blank three (size - 1) blank-length

write_all-Ends_example :
    Ends blank_disk
      (joined (sevens ∷ nines ∷ []) ++ drop (2 * sector_bytes) blank)
      (write_all (sevens ∷ nines ∷ []) (begin blank_disk))
write_all-Ends_example =
    write_all-Ends blank_disk sevens (nines ∷ []) blank-length (sevens-length, (nines-length, tt))
      (omega arith)

apply-isolated_example :
    (apply no_faults (writes_sector sevens) (begin blank_disk)).0.disk ≡ (begin blank_disk).disk
apply-isolated_example =
    apply-isolated no_faults (writes_sector sevens) (begin blank_disk) (λ e. cc)
