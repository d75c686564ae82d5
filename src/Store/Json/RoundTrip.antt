-- ===== src/Store/Json/RoundTrip.antt =====
-- store/headers.go, naming.go and peers.go: what was marshalled is read back.
use fnd.Base.{
  ◌<◌, ◌≤◌, ◌≡◌, refl, false, Option, none, some, ok, ltb-false, length, All, ℕ_discrete,
}
use fnd.Base.Bytes.{Bytes, bytes_dec, cons_dec}
use fnd.Base.Text.{hex_decode, hex_decode-hex_encode, hex_encode-ascii, IsByte}
use fnd.Base.GoMap.{get}
use fnd.Blob.Consts.{hash_len}
use fnd.Crypto.{
  signature_len, hash_string, signature_string, new_hash_from_bytes, new_signature_from_bytes,
}
use fnd.Store.Types.{Header, NameInfo, PublicKey, Peer}
use fnd.Store.Json.{
  JsonText, ReadsBack, IsPlain, moment, member, header_document, document_header, name_document,
  document_name, must_decode_public_key, peer_document, document_peer, must_marshal_json,
  read_header, read_peer, read_name, max_uint16, max_int,
}

abbrev pub IsAscii : Bytes → Type 0
IsAscii = All (λ c. c < 128)

abbrev pub IsHash : Bytes → Type 0
IsHash h = (length h ≡ hash_len) × All IsByte h

-- A header whose fields fit their Go types, with an ASCII name and a time that RFC 3339 can write.
pub record IsStorable (h : Header) : Type 0 where
  pub name_ascii : IsAscii h.name
  pub epoch_fits : h.epoch_height ≤ max_uint16
  pub size_fits : h.sector_size ≤ max_uint16
  pub tip_hash : IsHash h.sector_tip_hash
  pub signature_bytes : All IsByte h.signature
  pub signature_fits : length h.signature ≡ signature_len
  pub root_hash : IsHash h.reserved_root
  pub start_plain : IsPlain (h.name, moment h.epoch_start_at)

pub hex_hash :
    (h : Bytes)
    → IsHash h
    → (hex_decode (hash_string h) ≡ some h) × (new_hash_from_bytes h ≡ some h)
unfolding hash_string new_hash_from_bytes
hex_hash h (l, a) = (hex_decode-hex_encode h a, rw l refl)

hex_signature :
    (s : Bytes)
    → length s ≡ signature_len
    → All IsByte s
    → (hex_decode (signature_string s) ≡ some s) × (new_signature_from_bytes s ≡ some s)
unfolding signature_string new_signature_from_bytes
hex_signature s l a = (hex_decode-hex_encode s a, rw l refl)

document_header-header_document :
    (h : Header) → IsStorable h → document_header (header_document h) ≡ some h
unfolding document_header header_document member get bytes_dec cons_dec ℕ_discrete
document_header-header_document h v = rw (ltb-false max_uint16 h.epoch_height v.epoch_fits) (
    rw (ltb-false max_uint16 h.sector_size v.size_fits) (
      rw (hex_hash h.sector_tip_hash v.tip_hash).0 (
        rw (hex_hash h.sector_tip_hash v.tip_hash).1 (
          rw (hex_signature h.signature v.signature_fits v.signature_bytes).0 (
            rw (hex_signature h.signature v.signature_fits v.signature_bytes).1 (
              rw (hex_hash h.reserved_root v.root_hash).0
                (rw (hex_hash h.reserved_root v.root_hash).1 refl)))))))

document_peer-peer_document :
    (p : Peer)
    → IsHash p.id
    → document_peer (peer_document p)
      ≡ some (record p {
        inbound_banned_until = none;
        outbound_banned_until = none;
        whitelisted = false;
      })
unfolding document_peer peer_document member get bytes_dec cons_dec ℕ_discrete
document_peer-peer_document p v = rw (hex_hash p.id v).0 (rw (hex_hash p.id v).1 refl)

-- A key that ParsePubKey reads as itself: a compressed point of the curve.
abbrev pub IsKey : (Bytes → Option PublicKey) → PublicKey → Type 0
IsKey parse_pub_key key = (parse_pub_key key ≡ some key) × All IsByte key

pub record IsStorableName (parse_pub_key : Bytes → Option PublicKey) (n : NameInfo) : Type 0 where
  pub name_ascii : IsAscii n.name
  pub key_valid : IsKey parse_pub_key n.public_key
  pub height_fits : n.import_height ≤ max_int

document_name-name_document :
    (parse_pub_key : Bytes → Option PublicKey) (n : NameInfo)
    → IsStorableName parse_pub_key n
    → document_name parse_pub_key (name_document n) ≡ ok n
unfolding document_name name_document member get bytes_dec cons_dec ℕ_discrete
    must_decode_public_key
document_name-name_document parse_pub_key n v =
    rw (ltb-false max_int n.import_height v.height_fits)
      (rw (hex_decode-hex_encode n.public_key v.key_valid.1) (rw v.key_valid.0 refl))

header-IsPlain : (h : Header) → IsStorable h → All IsPlain (header_document h)
unfolding header_document hash_string signature_string
header-IsPlain h v = (
  v.name_ascii,
  (
    tt,
    (
      tt,
      (
        hex_encode-ascii h.sector_tip_hash v.tip_hash.1,
        (
          hex_encode-ascii h.signature v.signature_bytes,
          (hex_encode-ascii h.reserved_root v.root_hash.1, (v.start_plain, tt)),
        ),
      ),
    ),
  ),
)

name-IsPlain :
    (parse_pub_key : Bytes → Option PublicKey) (n : NameInfo)
    → IsStorableName parse_pub_key n
    → All IsPlain (name_document n)
unfolding name_document
name-IsPlain parse_pub_key n v =
    (v.name_ascii, (hex_encode-ascii n.public_key v.key_valid.1, (tt, tt)))

-- A peer with an id of 32 bytes and an ASCII address.
pub record IsStorablePeer (p : Peer) : Type 0 where
  pub id_hash : IsHash p.id
  pub ip_ascii : IsAscii p.ip
  pub seen_plain : IsPlain (p.ip, moment p.last_seen)

peer-IsPlain : (p : Peer) → IsStorablePeer p → All IsPlain (peer_document p)
unfolding peer_document hash_string
peer-IsPlain p v = (hex_encode-ascii p.id v.id_hash.1, (v.ip_ascii, (v.seen_plain, (tt, tt))))

module _ (J : JsonText) (R : ReadsBack J) where
  pub marshal_header :
      (h : Header)
      → IsStorable h
      → must_marshal_json J (header_document h) ≡ ok (R.written (header_document h))
  unfolding must_marshal_json
  marshal_header h v = rw (R.marshal_lem (header_document h) (header-IsPlain h v)) refl

  pub read_header-written :
      (h : Header) → IsStorable h → read_header J (R.written (header_document h)) ≡ ok h
  unfolding read_header
  read_header-written h v =
      rw (R.unmarshal_lem (header_document h) (header-IsPlain h v))
        (rw (document_header-header_document h v) refl)

  module _ (parse_pub_key : Bytes → Option PublicKey) where
    pub marshal_name :
        (n : NameInfo)
        → IsStorableName parse_pub_key n
        → must_marshal_json J (name_document n) ≡ ok (R.written (name_document n))
    unfolding must_marshal_json
    marshal_name n v = rw (R.marshal_lem (name_document n) (name-IsPlain parse_pub_key n v)) refl

    pub read_name-written :
        (n : NameInfo)
        → IsStorableName parse_pub_key n
        → read_name J parse_pub_key (R.written (name_document n)) ≡ ok n
    unfolding read_name
    read_name-written n v =
        rw (R.unmarshal_lem (name_document n) (name-IsPlain parse_pub_key n v))
          (document_name-name_document parse_pub_key n v)

  pub marshal_peer :
      (p : Peer)
      → IsStorablePeer p
      → must_marshal_json J (peer_document p) ≡ ok (R.written (peer_document p))
  unfolding must_marshal_json
  marshal_peer p v = rw (R.marshal_lem (peer_document p) (peer-IsPlain p v)) refl

  pub read_peer-written :
      (p : Peer)
      → IsStorablePeer p
      → read_peer J (R.written (peer_document p))
        ≡ ok (record p {
          inbound_banned_until = none;
          outbound_banned_until = none;
          whitelisted = false;
        })
  unfolding read_peer
  read_peer-written p v =
      rw (R.unmarshal_lem (peer_document p) (peer-IsPlain p v))
        (rw (document_peer-peer_document p v.id_hash) refl)
