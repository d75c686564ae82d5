-- ===== src/Wire/Message.antt =====
-- The messages of the package wire: their numbers (message.go), and Encode and Decode of each file.
-- Ping and PeerReq have no fields: they write and read nothing.
pub mod RoundTrip
use fnd.Base.{ℕ, ◌==◌, Bool, true, false, Option, none, some, List, [], ◌∷◌, if◌then◌else◌}
use fnd.Base.Bytes.{Bytes}
use fnd.Blob.Consts.{Hash, Sector}
use fnd.Store.Types.{Name, PublicKey, EquivocationProof}
use fnd.Protocol.UpdateQueue.{Update, BlobReq}
use fnd.Protocol.SectorServer.{BlobRes}
use fnd.Protocol.UpdateServer.{UpdateReq}
use fnd.Wire.Fields.{Kind, Values, text, u16, u32, items, pairs, array, Dwire}

pub record Hello : Type 0 where
  pub protocol_version : ℕ
  pub local_nonce : Bytes
  pub remote_nonce : Bytes
  pub public_key : PublicKey
  pub user_agent : Bytes

-- `Peer` of peer_res.go
pub record WirePeer : Type 0 where
  pub ip : Bytes
  pub id : Hash

pub data Message : Type 0 where
  hello : Hello → Message
  hello_ack : Bytes → Message
  ping peer_req : Message
  update : Update → Message
  nil_update : Name → Message
  blob_req : BlobReq → Message
  blob_res : BlobRes → Message
  peer_res : List WirePeer → Message
  update_req : UpdateReq → Message
  equivocation_proof : EquivocationProof → Message

-- `MsgType`; the number 10 is MessageTypeNameRes, which no message has.
unfoldable pub msg_type : Message → ℕ
msg_type (hello m) = 0
msg_type (hello_ack nonce) = 1
msg_type ping = 2
msg_type (update m) = 3
msg_type (nil_update name) = 4
msg_type (blob_req m) = 5
msg_type (blob_res m) = 6
msg_type peer_req = 7
msg_type (peer_res ps) = 8
msg_type (update_req m) = 9
msg_type (equivocation_proof m) = 11

-- The fields of the messages, in their order. A sector is 256 bytes, and a peer an address of 16
-- and a hash.
abbrev pub hello_kinds : List Kind
hello_kinds = u32 ∷ array 32 ∷ array 32 ∷ array 33 ∷ text ∷ []

abbrev pub nonce_kinds : List Kind
nonce_kinds = array 32 ∷ []

abbrev pub update_kinds : List Kind
update_kinds = text ∷ u16 ∷ u16 ∷ []

abbrev pub name_kinds : List Kind
name_kinds = text ∷ []

abbrev pub blob_res_kinds : List Kind
blob_res_kinds = text ∷ u16 ∷ u16 ∷ array 32 ∷ array 32 ∷ items 256 ∷ array 65 ∷ []

abbrev pub peers_kinds : List Kind
peers_kinds = pairs 16 32 ∷ []

abbrev pub proof_kinds : List Kind
proof_kinds =
    text
    ∷ u16
    ∷ u16
    ∷ array 32
    ∷ array 32
    ∷ items 256
    ∷ array 65
    ∷ u16
    ∷ u16
    ∷ array 32
    ∷ array 32
    ∷ array 65
    ∷ []

abbrev pub map_some {ℓ κ} : {A : Type ℓ} {B : Type κ} → (A → B) → Option A → Option B
map_some f none = none
map_some f (some a) = some (f a)

module _ (D : Dwire) where
  abbrev pub with_peer :
      WirePeer → Option Bytes → Option (List (Bytes × Hash)) → Option (List (Bytes × Hash))
  with_peer p (some ip16) (some rest) = some ((ip16, p.id) ∷ rest)
  with_peer p (some ip16) none = none
  with_peer p none rest = none

  -- The peers as `IPEncoder` writes them; an address that is not one is an error.
  unfoldable pub encode_peers : List WirePeer → Option (List (Bytes × Hash))
  encode_peers [] = some []
  encode_peers (p ∷ ps) = with_peer p (D.to16 p.ip) (encode_peers ps)

  abbrev pub write_peers : Option (List (Bytes × Hash)) → Option Bytes
  write_peers none = none
  write_peers (some ps) = D.encode_fields peers_kinds (ps, tt)

  -- `Encode` of the messages that have fields.
  abbrev pub encode_hello : Hello → Option Bytes
  encode_hello m =
      D.encode_fields hello_kinds
        (m.protocol_version, (m.local_nonce, (m.remote_nonce, (m.public_key, (m.user_agent, tt)))))

  abbrev pub encode_hello_ack : Bytes → Option Bytes
  encode_hello_ack nonce = D.encode_fields nonce_kinds (nonce, tt)

  abbrev pub encode_update : Update → Option Bytes
  encode_update m = D.encode_fields update_kinds (m.name, (m.epoch_height, (m.sector_size, tt)))

  abbrev pub encode_nil_update : Name → Option Bytes
  encode_nil_update name = D.encode_fields name_kinds (name, tt)

  abbrev pub encode_blob_req : BlobReq → Option Bytes
  encode_blob_req m = D.encode_fields update_kinds (m.name, (m.epoch_height, (m.sector_size, tt)))

  abbrev pub encode_update_req : UpdateReq → Option Bytes
  encode_update_req m = D.encode_fields update_kinds (m.name, (m.epoch_height, (m.sector_size, tt)))

  abbrev pub encode_blob_res : BlobRes → Option Bytes
  encode_blob_res m = D.encode_fields blob_res_kinds (
    m.name,
    (
      m.epoch_height,
      (m.payload_position, (m.prev_hash, (m.reserved_root, (m.payload, (m.signature, tt))))),
    ),
  )

  abbrev pub encode_peer_res : List WirePeer → Option Bytes
  encode_peer_res ps = write_peers (encode_peers ps)

  abbrev pub encode_equivocation_proof : EquivocationProof → Option Bytes
  encode_equivocation_proof m = D.encode_fields proof_kinds (
    m.name,
    (
      m.remote_epoch_height,
      (
        m.remote_payload_position,
        (
          m.remote_prev_hash,
          (
            m.remote_reserved_root,
            (
              m.remote_payload,
              (
                m.remote_signature,
                (
                  m.local_epoch_height,
                  (
                    m.local_sector_size,
                    (m.local_sector_tip_hash, (m.local_reserved_root, (m.local_signature, tt))),
                  ),
                ),
              ),
            ),
          ),
        ),
      ),
    ),
  )

  -- `Encode` of a message.
  unfoldable pub encode_message : Message → Option Bytes
  encode_message (hello m) = encode_hello m
  encode_message (hello_ack nonce) = encode_hello_ack nonce
  encode_message ping = some []
  encode_message peer_req = some []
  encode_message (update m) = encode_update m
  encode_message (nil_update name) = encode_nil_update name
  encode_message (blob_req m) = encode_blob_req m
  encode_message (blob_res m) = encode_blob_res m
  encode_message (peer_res ps) = encode_peer_res ps
  encode_message (update_req m) = encode_update_req m
  encode_message (equivocation_proof m) = encode_equivocation_proof m

  -- `Decode` of Hello, whose key is parsed, and of the others.
  abbrev pub with_key : Option PublicKey → ℕ → Bytes → Bytes → Bytes → Option Message
  with_key none version local remote agent = none
  with_key (some key) version local remote agent = some (
      hello (record {
        protocol_version = version;
        local_nonce = local;
        remote_nonce = remote;
        public_key = key;
        user_agent = agent;
      }))

  abbrev pub hello_of : Option (Values hello_kinds) → Option Message
  hello_of none = none
  hello_of (some (version, (local, (remote, (key, (agent, _)))))) =
      with_key (D.parse_pub_key key) version local remote agent

  abbrev pub update_of : Values update_kinds → Message
  update_of (n, (h, (s, _))) = update (record { name = n; epoch_height = h; sector_size = s })

  abbrev pub blob_req_of : Values update_kinds → Message
  blob_req_of (n, (h, (s, _))) = blob_req (record { name = n; epoch_height = h; sector_size = s })

  abbrev pub update_req_of : Values update_kinds → Message
  update_req_of (n, (h, (s, _))) =
      update_req (record { name = n; epoch_height = h; sector_size = s })

  abbrev pub blob_res_of : Values blob_res_kinds → Message
  blob_res_of (n, (h, (p, (prev, (root, (load, (sig, _))))))) = blob_res (record {
    name = n;
    epoch_height = h;
    payload_position = p;
    prev_hash = prev;
    reserved_root = root;
    payload = load;
    signature = sig;
  })

  unfoldable pub decode_peers : List (Bytes × Hash) → List WirePeer
  decode_peers [] = []
  decode_peers ((a, h) ∷ ps) = record { ip = a; id = h } ∷ decode_peers ps

  abbrev pub equivocation_of : Values proof_kinds → Message
  equivocation_of
        (n, (rh, (rp, (rprev, (rroot, (load, (rsig, (lh, (ls, (ltip, (lroot, (lsig, _)))))))))))) =
      equivocation_proof (record {
        name = n;
        remote_epoch_height = rh;
        remote_payload_position = rp;
        remote_prev_hash = rprev;
        remote_reserved_root = rroot;
        remote_payload = load;
        remote_signature = rsig;
        local_epoch_height = lh;
        local_sector_size = ls;
        local_sector_tip_hash = ltip;
        local_reserved_root = lroot;
        local_signature = lsig;
      })

  -- The switch of `(*Envelope).Decode`, and `Decode` of the message that it chooses.
  unfoldable pub decode_message : ℕ → Bytes → Option Message
  decode_message t b =
      if t == 0
      then hello_of (D.decode_fields hello_kinds b)
      else if t == 1
      then map_some (λ v. hello_ack v.0) (D.decode_fields nonce_kinds b)
      else if t == 2
      then some ping
      else if t == 3
      then map_some update_of (D.decode_fields update_kinds b)
      else if t == 4
      then map_some (λ v. nil_update v.0) (D.decode_fields name_kinds b)
      else if t == 5
      then map_some blob_req_of (D.decode_fields update_kinds b)
      else if t == 6
      then map_some blob_res_of (D.decode_fields blob_res_kinds b)
      else if t == 7
      then some peer_req
      else if t == 8
      then map_some (λ v. peer_res (decode_peers v.0)) (D.decode_fields peers_kinds b)
      else if t == 9
      then map_some update_req_of (D.decode_fields update_kinds b)
      else if t == 11
      then map_some equivocation_of (D.decode_fields proof_kinds b)
      else none
