-- ===== src/Wire/Message/RoundTrip.antt =====
-- The messages of the package wire: what was encoded is decoded.
use fnd.Base.{◌≡◌, refl, sym, ap, ◌∙◌, some, List, [], ◌∷◌, All}
use fnd.Base.Bytes.{Bytes}
use fnd.Blob.Consts.{Hash}
use fnd.Wire.Fields.{AllFit, Dwire, ReadsBack}
use fnd.Wire.Message.{
  Message, hello, hello_ack, ping, peer_req, update, nil_update, blob_req, blob_res, peer_res,
  update_req, equivocation_proof, WirePeer, msg_type, encode_message, decode_message, encode_peers,
  decode_peers, write_peers, hello_kinds, nonce_kinds, update_kinds, name_kinds, blob_res_kinds,
  peers_kinds, proof_kinds,
}

module _ (D : Dwire) (R : ReadsBack D) where
  unfoldable pub plain_peers : List WirePeer → List (Bytes × Hash)
  plain_peers [] = []
  plain_peers (p ∷ ps) = (p.ip, p.id) ∷ plain_peers ps

  -- The fields of the message fit their types; the key of a Hello is one that ParsePubKey reads,
  -- and an address has sixteen bytes.
  abbrev pub IsPlain : Message → Type 0
  IsPlain (hello m) =
      (D.parse_pub_key m.public_key ≡ some m.public_key)
      × AllFit hello_kinds (
        m.protocol_version,
        (m.local_nonce, (m.remote_nonce, (m.public_key, (m.user_agent, tt)))),
      )
  IsPlain (hello_ack nonce) = AllFit nonce_kinds (nonce, tt)
  IsPlain ping = Unit {0}
  IsPlain peer_req = Unit {0}
  IsPlain (update m) = AllFit update_kinds (m.name, (m.epoch_height, (m.sector_size, tt)))
  IsPlain (nil_update name) = Unit {0}
  IsPlain (blob_req m) = AllFit update_kinds (m.name, (m.epoch_height, (m.sector_size, tt)))
  IsPlain (blob_res m) = AllFit blob_res_kinds (
    m.name,
    (
      m.epoch_height,
      (m.payload_position, (m.prev_hash, (m.reserved_root, (m.payload, (m.signature, tt))))),
    ),
  )
  IsPlain (peer_res ps) =
      All (λ p. D.to16 p.ip ≡ some p.ip) ps × AllFit peers_kinds (plain_peers ps, tt)
  IsPlain (update_req m) = AllFit update_kinds (m.name, (m.epoch_height, (m.sector_size, tt)))
  IsPlain (equivocation_proof m) = AllFit proof_kinds (
    m.name,
    (
      m.remote_epoch_height,
      (
        m.remote_payload_position,
        (
          m.remote_prev_hash,
          (
            m.remote_reserved_root,
            (
              m.remote_payload,
              (
                m.remote_signature,
                (
                  m.local_epoch_height,
                  (
                    m.local_sector_size,
                    (m.local_sector_tip_hash, (m.local_reserved_root, (m.local_signature, tt))),
                  ),
                ),
              ),
            ),
          ),
        ),
      ),
    ),
  )

  encode_peers-plain :
      (ps : List WirePeer)
      → All (λ p. D.to16 p.ip ≡ some p.ip) ps
      → encode_peers D ps ≡ some (plain_peers ps)
  unfolding encode_peers plain_peers
  encode_peers-plain [] a = refl
  encode_peers-plain (p ∷ ps) a = rw a.0 (rw (encode_peers-plain ps a.1) refl)

  decode_peers-plain : (ps : List WirePeer) → decode_peers D (plain_peers ps) ≡ ps
  unfolding decode_peers plain_peers
  decode_peers-plain [] = refl
  decode_peers-plain (p ∷ ps) = ap (◌∷◌ p) (decode_peers-plain ps)

  -- The bytes that Encode of a message writes are decoded by the number of the message to the
  -- message, if its fields fit their types, and the key and the addresses in it are in the form
  -- that Decode gives them.
  pub decode_message-encode_message :
      (m : Message) {b : Bytes}
      → IsPlain m
      → encode_message D m ≡ some b
      → decode_message D (msg_type m) b ≡ some m
  unfolding msg_type encode_message decode_message
  decode_message-encode_message (hello m) k e =
      rw (R.decode-encode hello_kinds _ k.1 e) (rw k.0 refl)
  decode_message-encode_message (hello_ack nonce) k e = rw (R.decode-encode nonce_kinds _ k e) refl
  decode_message-encode_message ping k e = refl
  decode_message-encode_message peer_req k e = refl
  decode_message-encode_message (update m) k e = rw (R.decode-encode update_kinds _ k e) refl
  decode_message-encode_message (nil_update name) k e =
      rw (R.decode-encode name_kinds (name, tt) (tt, tt) e) refl
  decode_message-encode_message (blob_req m) k e = rw (R.decode-encode update_kinds _ k e) refl
  decode_message-encode_message (blob_res m) k e = rw (R.decode-encode blob_res_kinds _ k e) refl
  decode_message-encode_message (peer_res ps) k e =
      rw
        (R.decode-encode peers_kinds (plain_peers ps, tt) k.1
          (sym (ap (write_peers D) (encode_peers-plain ps k.0)) ∙ e))
        (ap (λ qs. some (peer_res qs)) (decode_peers-plain ps))
  decode_message-encode_message (update_req m) k e = rw (R.decode-encode update_kinds _ k e) refl
  decode_message-encode_message (equivocation_proof m) k e =
      rw (R.decode-encode proof_kinds _ k e) refl
