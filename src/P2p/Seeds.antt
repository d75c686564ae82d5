-- ===== src/P2p/Seeds.antt =====
-- p2p/seeds.go. What LookupIP answers is a list of addresses, each with what To4 and String make of
-- it.
use fnd.Base.{
  Bool, false, Option, none, some, List, [], ◌∷◌, Outcome, ok, err, if◌then◌else◌, ◌>>=◌,
}
use fnd.Base.Bytes.{Bytes, bytes_dec}
use fnd.Base.GoMap.{Map, get}
use fnd.Base.Text.{split_at_byte}
use fnd.Blob.Consts.{Hash}
use fnd.Crypto.{new_hash_from_hex}

pub record SeedPeer : Type 0 where
  pub id : Hash
  pub ip : Bytes

pub data SeedError : Type 0 where
  two_pieces malformed_id : SeedError

abbrev pub seed_of : List Bytes → Outcome SeedError SeedPeer
seed_of (id ∷ (ip ∷ [])) = elim (new_hash_from_hex id) [
  | some h ↦ ok (record { id = h; ip = ip })
  | none ↦ err malformed_id
]
seed_of (id ∷ (ip ∷ (more ∷ rest))) = err two_pieces
seed_of (id ∷ []) = err two_pieces
seed_of [] = err two_pieces

-- `ParseSeedPeers`
unfoldable pub parse_seed_peers : List Bytes → Outcome SeedError (List SeedPeer)
parse_seed_peers [] = ok []
parse_seed_peers (seed ∷ seeds) =
    seed_of (split_at_byte b'@' seed) >>= λ p. parse_seed_peers seeds >>= λ ps. ok (p ∷ ps)

abbrev is_used : Option Bool → Bool
is_used none = false
is_used (some u) = u

abbrev keep_v4 : Option Bytes → List Bytes → List Bytes
keep_v4 none rest = rest
keep_v4 (some text) rest = text ∷ rest

-- The loop of `ResolveDNSSeeds` over the text and the text of To4 of each address. Nothing is put
-- in the map.
unfoldable pub resolve_loop : List (Bytes × Option Bytes) → Map Bytes Bool → List Bytes
resolve_loop [] used = []
resolve_loop ((text, v4) ∷ ips) used =
    let rest = resolve_loop ips used in
    if is_used (get bytes_dec text used) then rest else keep_v4 v4 rest

-- `ResolveDNSSeeds`; `none` is the error of the lookup.
unfoldable pub resolve_dns_seeds : Option (List (Bytes × Option Bytes)) → Option (List Bytes)
resolve_dns_seeds none = none
resolve_dns_seeds (some ips) = some (resolve_loop ips [])
