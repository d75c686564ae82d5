-- ===== src/Blob/Hash/Chain.antt =====
-- blob/hash.go: the hash chain of a blob, and its tip.
use fnd.Base.{
  ℕ, zero, suc, ◌+◌, ◌-◌, ◌≤◌, ◌≡◌, ◌≢◌, refl, ap, ◌∙◌, List, [], ◌∷◌, ◌++◌, arith, if_neg, length,
  replicate, Outcome, ok, length-append,
}
use fnd.Base.Bytes.{Bytes, bytes_dec}
use fnd.Blob.Consts.{Hash, Sector, zero_hash, max_sectors, zero_sector}
use fnd.Blob.Hash.{
  SectorHashes, first_zero, at_or_zero, tip, serial_hash_loop, serial_hash, payload_tip,
}

tip_or : Hash → SectorHashes → Hash
tip_or d s = elim (first_zero s) [ zero ↦ d | suc j ↦ at_or_zero s j ]

at_or_zero-cons :
    (h : Hash) (s : SectorHashes) (i : ℕ)
    → at_or_zero (h ∷ s) i ≡ elim i [ zero ↦ h | suc j ↦ at_or_zero s j ]
at_or_zero-cons h s zero = refl
at_or_zero-cons h s (suc j) = refl

first_zero-cons :
    (h : Hash) (s : SectorHashes) → h ≢ zero_hash → first_zero (h ∷ s) ≡ suc (first_zero s)
unfolding first_zero
first_zero-cons h s n = if_neg (bytes_dec h zero_hash) n _ _

tip_or-cons : (d h : Hash) (s : SectorHashes) → h ≢ zero_hash → tip_or d (h ∷ s) ≡ tip_or h s
unfolding tip_or
tip_or-cons d h s n = rw (first_zero-cons h s n, tip_or) (at_or_zero-cons h s (first_zero s))

tip_or-zeros : (d : Hash) (k : ℕ) → tip_or d (replicate k zero_hash) ≡ d
unfolding tip_or first_zero bytes_dec
tip_or-zeros d zero = refl
tip_or-zeros d (suc k) = refl

module _ (blake2b : Bytes → Hash) where
  -- The hashes of sectors in a row, each over the one before it.
  pub chain : Hash → List Sector → SectorHashes
  chain prev [] = []
  chain prev (s ∷ ss) = blake2b (prev ++ s) ∷ chain (blake2b (prev ++ s)) ss

  -- No hash on the way is the zero hash, which marks the end of the array.
  abbrev pub NoZero : Hash → List Sector → Type 0
  NoZero prev [] = Unit {0}
  NoZero prev (s ∷ ss) = (blake2b (prev ++ s) ≢ zero_hash) × NoZero (blake2b (prev ++ s)) ss

  -- The reader gives these sectors, whole and without an error.
  abbrev pub Yields {ℓ} :
      {E R : Type ℓ} → (R → Sector → Outcome E (Sector × R)) → R → List Sector → Type ℓ
  Yields read br [] = Unit
  Yields {R} read br (s ∷ ss) =
      (br' : R) × ((buf : Sector) → read br buf ≡ ok (s, br')) × Yields read br' ss

  serial_hash_loop-chain {ℓ} :
      {E R : Type ℓ} (read : R → Sector → Outcome E (Sector × R)) (br : R) (ss : List Sector)
      (room : ℕ) (buf : Sector) (prev : Hash)
      → length ss ≤ room
      → Yields read br ss
      → serial_hash_loop blake2b read (length ss) room br buf prev
        ≡ ok (chain prev ss ++ replicate (room - length ss) zero_hash)
  unfolding serial_hash_loop chain
  serial_hash_loop-chain read br [] room buf prev h y =
      ap (λ n. ok (replicate n zero_hash)) (omega arith)
  serial_hash_loop-chain read br (s ∷ ss) zero buf prev h y = absurd (omega arith)
  serial_hash_loop-chain read br (s ∷ ss) (suc room) buf prev h (br', e, y) = rw (e buf) (
      rw (serial_hash_loop-chain read br' ss room s (blake2b (prev ++ s)) (omega arith) y) (
        ap
          (λ n.
            ok (blake2b (prev ++ s) ∷ (chain (blake2b (prev ++ s)) ss ++ replicate n zero_hash)))
          (omega arith)))

  tip_or-chain :
      (prev : Hash) (ss : List Sector) (k : ℕ)
      → NoZero prev ss
      → tip_or prev (chain prev ss ++ replicate k zero_hash) ≡ payload_tip blake2b prev ss
  unfolding chain payload_tip
  tip_or-chain prev [] k n = tip_or-zeros prev k
  tip_or-chain prev (s ∷ ss) k n =
      tip_or-cons prev (blake2b (prev ++ s))
        (chain (blake2b (prev ++ s)) ss ++ replicate k zero_hash) n.0
      ∙ tip_or-chain (blake2b (prev ++ s)) ss k n.1

  pub payload_tip-append :
      (prev : Hash) (xs ys : List Sector)
      → payload_tip blake2b prev (xs ++ ys) ≡ payload_tip blake2b (payload_tip blake2b prev xs) ys
  unfolding payload_tip
  payload_tip-append prev [] ys = refl
  payload_tip-append prev (x ∷ xs) ys = payload_tip-append (blake2b (prev ++ x)) xs ys

  -- Over a blob of at most 4096 sectors, none of whose running hashes is the zero hash,
  -- `SerialHash` succeeds, and the `Tip` of its result is what folding only the new sectors into
  -- the tip of the old ones gives: a synced payload need not rehash the sectors before it.
  pub tip-serial_hash {ℓ} :
      {E R : Type ℓ} (read : R → Sector → Outcome E (Sector × R)) (br : R) (old new : List Sector)
      → Yields read br (old ++ new)
      → length old + length new ≤ max_sectors
      → NoZero zero_hash (old ++ new)
      → (hashes : SectorHashes) × (serial_hash blake2b read br zero_hash (length (old ++ new))
          ≡ ok hashes)
        × (tip hashes ≡ payload_tip blake2b (payload_tip blake2b zero_hash old) new)
  unfolding serial_hash tip tip_or
  tip-serial_hash read br old new y fits nz = (
    chain zero_hash (old ++ new) ++ replicate (max_sectors - length (old ++ new)) zero_hash,
    serial_hash_loop-chain read br (old ++ new) max_sectors zero_sector zero_hash
        (omega (arith, length-append old new)) y,
    tip_or-chain zero_hash (old ++ new) _ nz ∙ payload_tip-append zero_hash old new,
  )
