-- ===== src/Blob/Hash.antt =====
-- blob/hash.go. The hash function blake2b of golang.org/x/crypto is the parameter `blake2b`, over
-- the bytes that were written to the hasher. A SectorHashes array is a list of `max_sectors`
-- hashes.
pub mod Chain
pub mod Codec
use fnd.Base.{
  ℕ, zero, suc, ◌+◌, ◌-◌, ◌≡◌, Bool, true, false, Option, none, some, List, [], ◌∷◌, ◌++◌, ite,
  if◌then◌else◌, length, take, drop, replicate, Outcome, ok, err, panicked, ◌>>=◌,
}
use fnd.Base.Bytes.{Bytes, bytes_dec}
use fnd.Blob.Consts.{Hash, Sector, zero_hash, zero_sector, max_sectors, hash_len}

abbrev pub SectorHashes : Type 0
SectorHashes = List Hash

pub zero_sector_hashes : SectorHashes
zero_sector_hashes = replicate max_sectors zero_hash

-- `(SectorHashes).Encode`: the hashes one after another.
unfoldable pub encode : SectorHashes → Bytes
encode [] = []
encode (h ∷ s) = h ++ encode s

pub data CodecError : Type 0 where
  eof : CodecError

-- The loop of `(*SectorHashes).Decode` over a bytes.Reader, for the hashes that are missing. `Read`
-- fails at the end of the input only; a short read leaves the end of the previous hash in place.
unfoldable pub decode_loop : ℕ → Hash → Bytes → Outcome CodecError SectorHashes
decode_loop zero hash r = ok []
decode_loop (suc n) hash [] = err eof
decode_loop (suc n) hash (b ∷ r) =
    let got = take hash_len (b ∷ r) in
    let hash' = got ++ drop (length got) hash in
    elim (decode_loop n hash' (drop hash_len (b ∷ r))) [
      | ok s ↦ ok (hash' ∷ s)
      | err e ↦ err e
      | panicked ↦ panicked
    ]

unfoldable pub decode : Bytes → Outcome CodecError SectorHashes
decode r = decode_loop max_sectors zero_hash r

-- The index of the first entry that passes, or the length.
unfoldable pub first_diff : SectorHashes → SectorHashes → ℕ
first_diff (x ∷ s) (y ∷ t) = ite (bytes_dec x y) (suc (first_diff s t)) 0
first_diff [] t = 0
first_diff (x ∷ s) [] = 0

unfoldable pub same_hashes : SectorHashes → SectorHashes → Bool
same_hashes [] [] = true
same_hashes (x ∷ s) (y ∷ t) = ite (bytes_dec x y) (same_hashes s t) false
same_hashes [] (y ∷ t) = false
same_hashes (x ∷ s) [] = false

-- `DiffWith`; `none` is the result -1.
unfoldable pub diff_with : SectorHashes → SectorHashes → Option ℕ
diff_with s other = if same_hashes s other then none else some (first_diff s other)

-- The loop of `Tip`: the index of the first zero hash, or the length.
unfoldable pub first_zero : SectorHashes → ℕ
first_zero [] = 0
first_zero (h ∷ s) = ite (bytes_dec h zero_hash) 0 (suc (first_zero s))

-- `s[i]`, which the callers keep in range.
abbrev pub at_or_zero : SectorHashes → ℕ → Hash
at_or_zero [] i = zero_hash
at_or_zero (h ∷ s) zero = h
at_or_zero (h ∷ s) (suc i) = at_or_zero s i

-- `Tip`
unfoldable pub tip : SectorHashes → Hash
unfolding first_zero
tip s = let i = first_zero s in elim i [ zero ↦ zero_hash | suc j ↦ at_or_zero s j ]

module _ (blake2b : Bytes → Hash) where
  -- `SerialHashSector`
  unfoldable pub serial_hash_sector : Sector → Hash → Hash
  serial_hash_sector sector prev_hash = blake2b (prev_hash ++ sector)

  -- The loop of `SerialHash`: `n` sectors are left, and `room` entries of the array. An index past
  -- the array panics. `read` fills the sector that it is given.
  unfoldable pub serial_hash_loop {ℓ} :
      {E R : Type ℓ}
      → (R → Sector → Outcome E (Sector × R))
      → ℕ
      → ℕ
      → R
      → Sector
      → Hash
      → Outcome E SectorHashes
  serial_hash_loop read zero room br sector prev_hash = ok (replicate room zero_hash)
  serial_hash_loop read (suc n) zero br sector prev_hash = read br sector >>= λ p. panicked
  serial_hash_loop read (suc n) (suc room) br sector prev_hash = read br sector >>= λ p.
      let h = blake2b (prev_hash ++ p.0) in
      (serial_hash_loop read n room p.1 p.0 h >>= λ rest. ok (h ∷ rest))

  unfoldable pub serial_hash {ℓ} :
      {E R : Type ℓ} → (R → Sector → Outcome E (Sector × R)) → R → Hash → ℕ → Outcome E SectorHashes
  serial_hash read br prev_hash sector_size =
      serial_hash_loop read sector_size max_sectors br zero_sector prev_hash

  -- The loop that folds a payload into a tip hash, in SyncSectors and in onEquivocationProof.
  unfoldable pub payload_tip : Hash → List Sector → Hash
  payload_tip sector_tip_hash [] = sector_tip_hash
  payload_tip sector_tip_hash (sector ∷ payload) =
      payload_tip (blake2b (sector_tip_hash ++ sector)) payload
