-- ===== src/Store/Keys.antt =====
-- store/prefix.go and the keys of store/headers.go, naming.go, peers.go, moderation.go and
-- equivocation_proof.go.
use fnd.Base.{Option, none, some, List, [], ◌∷◌, ◌≡◌, refl, ap, ◌≢◌}
use fnd.Base.Bytes.{Bytes}
use fnd.Base.Text.{codes, join, strip_prefix}

-- `Prefixer(prefix)(parts...)`
abbrev pub prefixer : Bytes → List Bytes → Bytes
prefixer prefix parts = join (codes "/") prefix parts

abbrev pub headers_prefix : List Bytes → Bytes
headers_prefix = prefixer (codes "headers")

abbrev pub header_count_key : Bytes
header_count_key = prefixer (headers_prefix (codes "count" ∷ [])) []

abbrev pub header_sector_hashes_prefix : List Bytes → Bytes
header_sector_hashes_prefix = prefixer (headers_prefix (codes "sector-hashes" ∷ []))

abbrev pub header_ban_prefix : List Bytes → Bytes
header_ban_prefix = prefixer (headers_prefix (codes "banned" ∷ []))

abbrev pub header_data_prefix : List Bytes → Bytes
header_data_prefix = prefixer (headers_prefix (codes "header" ∷ []))

abbrev pub last_name_import_height_key : Bytes
last_name_import_height_key = codes "last-name-import-height"

abbrev pub initial_import_complete_key : Bytes
initial_import_complete_key = codes "initial-import-complete"

abbrev pub names_prefix : List Bytes → Bytes
names_prefix = prefixer (codes "names")

abbrev pub name_data_prefix : List Bytes → Bytes
name_data_prefix = prefixer (names_prefix (codes "name" ∷ []))

abbrev pub peers_prefix : List Bytes → Bytes
peers_prefix = prefixer (codes "peers")

abbrev pub peer_data_prefix : List Bytes → Bytes
peer_data_prefix = prefixer (peers_prefix (codes "peer" ∷ []))

abbrev pub peer_in_ban_prefix : List Bytes → Bytes
peer_in_ban_prefix = prefixer (peers_prefix (codes "inbound-ban" ∷ []))

abbrev pub peer_out_ban_prefix : List Bytes → Bytes
peer_out_ban_prefix = prefixer (peers_prefix (codes "outbound-ban" ∷ []))

abbrev pub whitelist_prefix : List Bytes → Bytes
whitelist_prefix = prefixer (peers_prefix (codes "whitelist" ∷ []))

abbrev pub last_ban_list_import_at_key : Bytes
last_ban_list_import_at_key = codes "last-ban-list-import-at"

abbrev pub bans_prefix : List Bytes → Bytes
bans_prefix = prefixer (codes "bans")

abbrev pub ban_prefix : List Bytes → Bytes
ban_prefix = prefixer (bans_prefix (codes "ban" ∷ []))

abbrev pub equivocation_proofs_prefix : List Bytes → Bytes
equivocation_proofs_prefix = prefixer (codes "equivocationproofs")

-- What the store keeps, by what it is about: a name, an IP address or the id of a peer.
pub data Key : Type 0 where
  header_count last_name_import_height initial_import_complete last_ban_list_import_at : Key
  sector_hashes header_ban header_data name_data : Bytes → Key
  peer_data peer_in_ban peer_out_ban whitelist ban equivocation_proof : Bytes → Key

abbrev pub key_bytes : Key → Bytes
key_bytes header_count = header_count_key
key_bytes last_name_import_height = last_name_import_height_key
key_bytes initial_import_complete = initial_import_complete_key
key_bytes last_ban_list_import_at = last_ban_list_import_at_key
key_bytes (sector_hashes n) = header_sector_hashes_prefix (n ∷ [])
key_bytes (header_ban n) = header_ban_prefix (n ∷ [])
key_bytes (header_data n) = header_data_prefix (n ∷ [])
key_bytes (name_data n) = name_data_prefix (n ∷ [])
key_bytes (peer_data n) = peer_data_prefix (n ∷ [])
key_bytes (peer_in_ban n) = peer_in_ban_prefix (n ∷ [])
key_bytes (peer_out_ban n) = peer_out_ban_prefix (n ∷ [])
key_bytes (whitelist n) = whitelist_prefix (n ∷ [])
key_bytes (ban n) = ban_prefix (n ∷ [])
key_bytes (equivocation_proof n) = equivocation_proofs_prefix (n ∷ [])

-- The families one after another, each with the text before its argument.
families : List (Bytes × (Bytes → Key))
families =
    (codes "headers/sector-hashes/", sector_hashes)
    ∷ ((codes "headers/banned/", header_ban)
        ∷ ((codes "headers/header/", header_data)
            ∷ ((codes "headers/count", λ _. header_count)
                ∷ ((codes "last-name", λ _. last_name_import_height)
                    ∷ ((codes "initial", λ _. initial_import_complete)
                        ∷ ((codes "last-ban", λ _. last_ban_list_import_at)
                            ∷ ((codes "names/name/", name_data)
                                ∷ ((codes "peers/peer/", peer_data)
                                    ∷ ((codes "peers/inbound-ban/", peer_in_ban)
                                        ∷ ((codes "peers/outbound-ban/", peer_out_ban)
                                            ∷ ((codes "peers/whitelist/", whitelist)
                                                ∷ ((codes "bans/ban/", ban)
                                                    ∷ ((
                                                      codes "equivocationproofs/",
                                                      equivocation_proof,
                                                    )
                                                        ∷ [])))))))))))))

first_family : List (Bytes × (Bytes → Key)) → Bytes → Option Key
first_family [] s = none
first_family ((p, k) ∷ fs) s = elim (strip_prefix p s) [
  | some rest ↦ some (k rest)
  | none ↦ first_family fs s
]

key_of : Bytes → Option Key
key_of = first_family families

key_of-key_bytes : (k : Key) → key_of (key_bytes k) ≡ some k
unfolding key_of first_family families strip_prefix
key_of-key_bytes header_count = refl
key_of-key_bytes last_name_import_height = refl
key_of-key_bytes initial_import_complete = refl
key_of-key_bytes last_ban_list_import_at = refl
key_of-key_bytes (sector_hashes n) = refl
key_of-key_bytes (header_ban n) = refl
key_of-key_bytes (header_data n) = refl
key_of-key_bytes (name_data n) = refl
key_of-key_bytes (peer_data n) = refl
key_of-key_bytes (peer_in_ban n) = refl
key_of-key_bytes (peer_out_ban n) = refl
key_of-key_bytes (whitelist n) = refl
key_of-key_bytes (ban n) = refl
key_of-key_bytes (equivocation_proof n) = refl

-- No two things that the store keeps share a key: two keys are equal only if they are of one family
-- and about one name, address or id.
pub key_bytes-injective : (j k : Key) → key_bytes j ≡ key_bytes k → j ≡ k
key_bytes-injective j k e = cc (key_of-key_bytes j, key_of-key_bytes k, ap key_of e)

pub key_bytes-ne : (j k : Key) → j ≢ k → key_bytes j ≢ key_bytes k
key_bytes-ne j k h e = h (key_bytes-injective j k e)
