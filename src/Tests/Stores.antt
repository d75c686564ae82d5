-- ===== src/Tests/Stores.antt =====
-- Runs of the package store on a database in memory.
use fnd.Base.{
  ℕ, ◌+◌, ◌≡◌, ◌≢◌, refl, arith, true, false, [], ◌∷◌, none, some, Outcome, ok, err, panicked,
  if◌then◌else◌, ltb, ℕ_discrete, replicate, length, length-replicate, All, zero, suc,
}
use fnd.Base.Bytes.{Bytes, bytes_dec, cons_dec}
use fnd.Base.GoMap.{get, put}
use fnd.Base.Text.{codes, hex_encode, hex_digit, strip_prefix, hex_decode, hex_value}
use fnd.Blob.Consts.{Hash, zero_hash, max_sectors, hash_len}
use fnd.Blob.Hash.{SectorHashes}
use fnd.Store.Types.{Header, Peer}
use fnd.Store.Interface.{DbError, failed, not_found}
use fnd.Store.Keys.{key_bytes, header_ban, key_bytes-injective}
use fnd.Store.Ints.{
  max_int32, must_decode_int, must_encode_int, must_decode_int-must_encode_int, must_decode_time,
  encode_time, put_uint64, uint64_of,
}
use fnd.Store.Json.{must_marshal_json, read_peer, peer_document, document_peer, member}
use fnd.Store.Json.RoundTrip.{IsStorable}
use fnd.Store.Transactions.{with_tx}
use fnd.Store.Headers.{
  get_header_count, set_header_tx, get_header, get_sector_hashes, get_header_ban,
  truncate_header_store,
}
use fnd.Store.Names.{get_name_info}
use fnd.Store.Moderation.{name_is_banned}
use fnd.Store.Headers.Readback.{IsStored, set_header-IsStored}
use fnd.Store.Peers.{
  is_banned, ban_outbound_peer, next_peer, stream_peers, set_peer, ban_outbound_peer_tx,
  set_peer_tx, filled, peer_is_banned,
}
use fnd.Store.Peers.Bans.{is_banned-ban_outbound}
use fnd.Store.Peers.Passing.{Passes, next_peer-Passes}
use fnd.Store.Commits.{with_tx-Leaves, Leaves}
use fnd.Store.Truncation.{truncate_header_store-empties}
use fnd.Crypto.{hash_string, new_hash_from_bytes}
use fnd.Tests.Memory.{
  Disk, memory, memory-IsHealthy, plain_text, plain_text-ReadsBack, values_if, read, write,
  read_members, read_text, write_members, write_text, read_value, write_value,
}

abbrev ones : Hash
ones = replicate 32 1

abbrev header_a : Header
header_a = record {
  name = codes "alice";
  epoch_height = 5;
  sector_size = 1;
  sector_tip_hash = ones;
  signature = replicate 65 7;
  reserved_root = zero_hash;
  epoch_start_at = some 1000000;
}

header_a-IsStorable : IsStorable header_a
header_a-IsStorable = record {
  name_ascii = omega arith;
  epoch_fits = omega arith;
  size_fits = omega arith;
  tip_hash = (refl, omega arith);
  signature_bytes = omega arith;
  signature_fits = refl;
  root_hash = (refl, omega arith);
  start_plain = omega arith;
}

abbrev tree : SectorHashes
tree = replicate max_sectors ones

All-replicate : (n : ℕ) → All (λ (x : Hash). length x ≡ hash_len) (replicate n ones)
All-replicate zero = tt
All-replicate (suc n) = (refl, All-replicate n)

abbrev empty : Disk
empty = []

set_header-IsStored_example :
    ((with_tx memory empty (set_header_tx memory plain_text header_a tree)).0 ≡ ok tt)
    × IsStored memory memory-IsHealthy plain_text empty header_a tree false 0
        (with_tx memory empty (set_header_tx memory plain_text header_a tree)).1
unfolding get_header_count get
set_header-IsStored_example =
    set_header-IsStored memory memory-IsHealthy plain_text plain_text-ReadsBack header_a
      header_a-IsStorable tree (length-replicate {0} {A = Hash} max_sectors ones)
      (All-replicate max_sectors) empty 0 false refl (omega arith) refl

abbrev ip_a : Bytes
ip_a = codes "10.0.0.1"

abbrev ip_b : Bytes
ip_b = codes "10.0.0.2"

-- Banned at 1000 for a day.
is_banned-ban_outbound_example :
    (is_banned memory (ban_outbound_peer memory empty 1000 ip_a 86400).1 5000 ip_a
      ≡ ok (false, ltb 5000 (1000 + 86400)))
    × ((other : Bytes)
        → ip_a ≢ other
        → is_banned memory (ban_outbound_peer memory empty 1000 ip_a 86400).1 5000 other
          ≡ is_banned memory empty 5000 other)
unfolding is_banned get must_decode_time
is_banned-ban_outbound_example =
    is_banned-ban_outbound memory memory-IsHealthy empty 1000 86400 ip_a (omega arith) refl 5000
      false false refl

-- A callback that puts a ban of a name and then fails.
abbrev failing : Disk → Outcome DbError (Unit {0}) × Disk
failing t = (err failed, put bytes_dec (key_bytes (header_ban (codes "alice"))) (1 ∷ []) t)

with_tx-Leaves_example :
    ((with_tx memory empty failing).0 ≡ err failed)
    × Leaves memory memory-IsHealthy empty
        (err failed)
        (failing empty).1
        (with_tx memory empty failing).1
unfolding memory-IsHealthy
with_tx-Leaves_example = with_tx-Leaves memory memory-IsHealthy empty failing

with_tx_example :
    get bytes_dec (key_bytes (header_ban (codes "alice"))) (with_tx memory empty failing).1
    ≡ some (1 ∷ [])
unfolding with_tx get put bytes_dec cons_dec ℕ_discrete
with_tx_example = refl

must_decode_int-must_encode_int_example :
    must_decode_int (must_encode_int 2_147_483_648)
    ≡ (if ltb max_int32 2_147_483_648 then panicked else ok 2_147_483_648)
must_decode_int-must_encode_int_example =
    must_decode_int-must_encode_int 2_147_483_648 (omega arith)

key_bytes-injective_example : header_ban (codes "alice") ≡ header_ban (97 ∷ (108 ∷ codes "ice"))
key_bytes-injective_example =
    key_bytes-injective (header_ban (codes "alice")) (header_ban (97 ∷ (108 ∷ codes "ice"))) refl

-- Two peers, the first of them banned.
abbrev two_peers : Disk
two_peers =
    (ban_outbound_peer memory
      (set_peer memory plain_text (set_peer memory plain_text empty 900 ones ip_a false).1 900
        zero_hash ip_b true).1
      1000 ip_a 86400).1

abbrev peer_b : Peer
peer_b = record {
  id = zero_hash;
  ip = ip_b;
  last_seen = some 900;
  verify = true;
  inbound_banned_until = none;
  outbound_banned_until = none;
  whitelisted = false;
}

passes_b :
    next_peer memory plain_text false 2000 two_peers (stream_peers memory two_peers)
    ≡ ok (some peer_b, [])
unfolding next_peer stream_peers ban_outbound_peer set_peer with_tx get put bytes_dec cons_dec
    ℕ_discrete values_if ban_outbound_peer_tx set_peer_tx must_marshal_json hash_string hex_encode
    hex_digit strip_prefix filled read_peer read write read_members peer_document read_text
    write_members write_text hex_decode hex_value new_hash_from_bytes encode_time must_decode_time
    document_peer member peer_is_banned read_value write_value put_uint64 uint64_of
passes_b = refl

next_peer-Passes_example :
    Passes memory plain_text 2000 two_peers (stream_peers memory two_peers) (some peer_b) []
next_peer-Passes_example =
    next_peer-Passes memory plain_text 2000 two_peers (stream_peers memory two_peers) (some peer_b)
      [] passes_b

truncate_header_store-empties_example :
    ((truncate_header_store memory two_peers).0 ≡ ok tt)
    × (get_header_count memory (truncate_header_store memory two_peers).1 ≡ ok 0)
    × (get_header memory plain_text (truncate_header_store memory two_peers).1 (codes "alice")
        ≡ err not_found)
    × (get_sector_hashes memory (truncate_header_store memory two_peers).1 (codes "alice")
        ≡ err not_found)
    × (get_header_ban memory (truncate_header_store memory two_peers).1 (codes "alice") ≡ ok none)
    × (get_name_info memory plain_text some
          (truncate_header_store memory two_peers).1
          (codes "alice")
        ≡ get_name_info memory plain_text some two_peers (codes "alice"))
    × (name_is_banned memory (truncate_header_store memory two_peers).1 (codes "alice")
        ≡ name_is_banned memory two_peers (codes "alice"))
    × (is_banned memory (truncate_header_store memory two_peers).1 2000 ip_a
        ≡ is_banned memory two_peers 2000 ip_a)
truncate_header_store-empties_example =
    truncate_header_store-empties memory memory-IsHealthy plain_text some two_peers (codes "alice")
      2000 ip_a
