-- ===== src/Tests/Messages.antt =====
-- Runs of the messages and envelopes.
use fnd.Base.{◌≡◌, refl, true, some, [], ◌∷◌, ◌++◌, replicate, length, arith}
use fnd.Base.Bytes.{Bytes}
use fnd.Base.Text.{codes}
use fnd.Crypto.{sign, verify_sig_pub}
use fnd.Wire.Message.{
  Message, update, nil_update, peer_res, blob_res, msg_type, encode_message, encode_peers,
  decode_message,
}
use fnd.Wire.Message.RoundTrip.{plain_peers, decode_message-encode_message}
use fnd.Protocol.SectorServer.{BlobRes}
use fnd.Wire.Envelope.{Envelope, envelope_hash, encode_envelope, decode_envelope, new_envelope}
use fnd.Wire.Envelope.RoundTrip.{decode_envelope-encode_envelope}
use fnd.Wire.Envelope.Signing.{carrying, new_envelope-transfers}
use fnd.Tests.Codec.{toy_dwire, toy_dwire-ReadsBack, write_value, write_fields, flat, flat_pairs}
use fnd.Tests.Peers.{toy_curve, toy_curve-Recovers}

abbrev news : Message
news = update (record { name = codes "alice"; epoch_height = 9; sector_size = 4 })

abbrev envelope : Envelope
envelope = record {
  magic = 77;
  message_type = 3;
  timestamp = 1000;
  message = news;
  signature = 7 ∷ (5 ∷ []);
}

-- Two peers, of sixteen bytes of address and thirty-two of hash.
abbrev two_peers : Message
two_peers = peer_res (
    record { ip = replicate 16 1; id = replicate 32 2 }
    ∷ (record { ip = replicate 16 3; id = replicate 32 4 } ∷ []))

abbrev peers_envelope : Envelope
peers_envelope = record {
  magic = 77;
  message_type = 8;
  timestamp = 1000;
  message = two_peers;
  signature = replicate 65 9;
}

abbrev peers_bytes : Bytes
peers_bytes = 2 ∷ (replicate 16 1 ++ replicate 32 2 ++ replicate 16 3 ++ replicate 32 4)

decode_envelope-encode_envelope_example :
    decode_envelope toy_dwire
      (77 ∷ (8 ∷ (1000 ∷ (length peers_bytes ∷ (peers_bytes ++ (65 ∷ replicate 65 9))))))
    ≡ some peers_envelope
unfolding encode_envelope encode_message encode_peers msg_type write_value write_fields flat_pairs
    plain_peers
decode_envelope-encode_envelope_example =
    decode_envelope-encode_envelope toy_dwire toy_dwire-ReadsBack peers_envelope
      ((refl, (refl, tt)), (((refl, refl), ((refl, refl), tt)), tt))
      (omega arith, (omega arith, (omega arith, (tt, (refl, tt))))) refl refl

-- A response with a sector.
abbrev response : BlobRes
response = record {
  name = codes "alice";
  epoch_height = 5;
  payload_position = 1;
  prev_hash = replicate 32 1;
  reserved_root = replicate 32 0;
  payload = replicate 256 7 ∷ [];
  signature = replicate 65 9;
}

abbrev response_bytes : Bytes
response_bytes =
    5
    ∷ (codes "alice"
        ++ (5
            ∷ (1
                ∷ (32
                    ∷ (replicate 32 1
                        ++ (32
                            ∷ (replicate 32 0
                                ++ (1 ∷ (replicate 256 7 ++ (65 ∷ replicate 65 9))))))))))

response_decoded : decode_message toy_dwire 6 response_bytes ≡ some (blob_res response)
unfolding encode_message msg_type write_value write_fields flat
response_decoded =
    decode_message-encode_message toy_dwire toy_dwire-ReadsBack (blob_res response)
      (tt, (omega arith, (omega arith, (refl, (refl, ((refl, tt), (refl, tt))))))) refl

new_envelope-transfers_example :
    verify_sig_pub toy_curve
      (2 ∷ (5 ∷ []))
      (7 ∷ (5 ∷ []))
      (envelope_hash toy_dwire toy_curve.blake2b (carrying (nil_update (codes "bob")) envelope))
    ≡ true
unfolding new_envelope envelope_hash sign encode_message msg_type write_value write_fields
new_envelope-transfers_example =
    new_envelope-transfers toy_dwire toy_curve toy_curve-Recovers (5 ∷ []) 77 1000 news
      (nil_update (codes "bob")) (3 ∷ codes "bob") {e = envelope} refl refl
