-- ===== src/Blob/Consts.antt =====
-- blob/consts.go, and crypto.Hash and blob.Sector as byte strings.
use fnd.Base.{ℕ, replicate}
use fnd.Base.Bytes.{Bytes}

abbrev pub sector_bytes : ℕ
sector_bytes = 256

abbrev pub max_sectors : ℕ
max_sectors = 4096

abbrev pub size : ℕ
size = 1048576

abbrev pub hash_len : ℕ
hash_len = 32

abbrev pub Hash : Type 0
Hash = Bytes

abbrev pub Sector : Type 0
Sector = Bytes

abbrev pub zero_hash : Hash
zero_hash = replicate hash_len 0

abbrev pub zero_sector : Sector
zero_sector = replicate sector_bytes 0
