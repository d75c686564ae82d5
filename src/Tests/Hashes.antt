-- ===== src/Tests/Hashes.antt =====
-- Runs of blob/hash.go, protocol/epoch.go and protocol/peer_set.go.
use fnd.Base.{
  ℕ, zero, suc, ◌*◌, ◌≡◌, ◌≢◌, refl, arith, List, [], ◌∷◌, ◌++◌, Outcome, ok, err, length, take,
  replicate, length-replicate, All, ℕ_discrete,
}
use fnd.Base.Bytes.{Bytes, cons_head}
use fnd.Blob.Consts.{Hash, Sector, zero_hash, max_sectors, hash_len}
use fnd.Blob.Hash.{SectorHashes, CodecError, eof, tip, serial_hash, payload_tip}
use fnd.Blob.Hash.Chain.{tip-serial_hash}
use fnd.Protocol.Epoch.{nanos}
use fnd.Protocol.PeerSet.{PeerSet, new_peer_set}

-- A hash that keeps the start of what it hashes.
abbrev toy_hash : Bytes → Hash
toy_hash b = 1 ∷ take 31 (b ++ zero_hash)

abbrev read_list : List Sector → Sector → Outcome CodecError (Sector × List Sector)
read_list [] buf = err eof
read_list (s ∷ ss) buf = ok (s, ss)

abbrev first_sector : Sector
first_sector = 5 ∷ 6 ∷ []

abbrev second_sector : Sector
second_sector = 8 ∷ []

not-zero_hash : (b : Bytes) → toy_hash b ≢ zero_hash
not-zero_hash b e = one-ne-zero (cons_head e)
  where
    one-ne-zero : ◌≡◌ {A = ℕ} 1 0 → ⊥
    one-ne-zero q = omega arith

tip-serial_hash_example :
    (hashes : SectorHashes) × (serial_hash toy_hash read_list
        (first_sector ∷ second_sector ∷ [])
        zero_hash
        2
      ≡ ok hashes)
    × (tip hashes
        ≡ payload_tip toy_hash
            (payload_tip toy_hash zero_hash (first_sector ∷ []))
            (second_sector ∷ []))
tip-serial_hash_example =
    tip-serial_hash toy_hash read_list (first_sector ∷ second_sector ∷ []) (first_sector ∷ [])
      (second_sector ∷ []) (second_sector ∷ [], λ b. refl, ([], λ b. refl, tt)) (omega arith)
      (
        not-zero_hash (zero_hash ++ first_sector),
        (not-zero_hash (toy_hash (zero_hash ++ first_sector) ++ second_sector), tt),
      )

abbrev some_hashes : SectorHashes
some_hashes = toy_hash first_sector ∷ replicate 4095 zero_hash

replicate-All : (n : ℕ) → All (λ h. length h ≡ hash_len) (replicate n zero_hash)
replicate-All zero = tt
replicate-All (suc n) = (refl, replicate-All n)

some_hashes-length : length some_hashes ≡ max_sectors
some_hashes-length = omega (arith, length-replicate {0} {A = Hash} 4095 zero_hash)

abbrev old_hashes : SectorHashes
old_hashes = toy_hash first_sector ∷ zero_hash ∷ []

abbrev new_hashes : SectorHashes
new_hashes = toy_hash first_sector ∷ toy_hash second_sector ∷ []

abbrev plain_hash : List ℕ → List ℕ
plain_hash name = name

abbrev spring_2020 : ℕ
spring_2020 = 1585000000 * nanos

abbrev three_peers : List ℕ
three_peers = 4 ∷ 9 ∷ 4 ∷ []

abbrev two_peers : PeerSet ℕ
two_peers = new_peer_set ℕ_discrete three_peers
