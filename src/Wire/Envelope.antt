-- ===== src/Wire/Envelope.antt =====
-- wire/envelope.go: an envelope, its Hash that is signed, and its Encode and Decode.
pub mod Signing
pub mod RoundTrip
use fnd.Base.{ℕ, ◌≡◌, refl, sym, ap, ◌∙◌, Bool, true, false, Option, none, some, List, [], ◌∷◌}
use fnd.Base.Bytes.{Bytes}
use fnd.Blob.Consts.{Hash}
use fnd.Store.Types.{Signature}
use fnd.Crypto.{Curve, Recovers, sign, verify_sig_pub, verify-sign}
use fnd.Wire.Fields.{Kind, Values, Dwire, ReadsBack, u16, u32, seconds, blob, array}
use fnd.Wire.Message.{Message, msg_type, encode_message, decode_message}
use fnd.Wire.Message.RoundTrip.{IsPlain, decode_message-encode_message}

pub record Envelope : Type 0 where
  pub magic : ℕ
  pub message_type : ℕ
  pub timestamp : ℕ
  pub message : Message
  pub signature : Signature

abbrev pub envelope_kinds : List Kind
envelope_kinds = u32 ∷ u16 ∷ seconds ∷ blob ∷ array 65 ∷ []

abbrev pub hashed_kinds : List Kind
hashed_kinds = u32 ∷ u16 ∷ seconds ∷ blob ∷ []

module _ (D : Dwire) where
  -- What is hashed, once the message was encoded: the fourth field is the buffer that is written,
  -- which is still empty when its bytes are taken, and not the bytes of the message.
  abbrev pub hashed_bytes : Envelope → Option Bytes → Option Bytes
  hashed_bytes e none = none
  hashed_bytes e (some msg_buf) =
      D.encode_fields hashed_kinds (e.magic, (e.message_type, (e.timestamp, ([], tt))))

  abbrev pub digest : (Bytes → Hash) → Option Bytes → Option Hash
  digest blake2b none = none
  digest blake2b (some b) = some (blake2b b)

  -- `(*Envelope).Hash`; `none` is its error.
  unfoldable pub envelope_hash : (Bytes → Hash) → Envelope → Option Hash
  envelope_hash blake2b e = digest blake2b (hashed_bytes e (encode_message D e.message))

  abbrev pub framed : Envelope → Option Bytes → Option Bytes
  framed e none = none
  framed e (some buf) =
      D.encode_fields envelope_kinds
        (e.magic, (e.message_type, (e.timestamp, (buf, (e.signature, tt)))))

  -- `(*Envelope).Encode`
  unfoldable pub encode_envelope : Envelope → Option Bytes
  encode_envelope e = framed e (encode_message D e.message)

  abbrev pub envelope_with : ℕ → ℕ → ℕ → Signature → Option Message → Option Envelope
  envelope_with magic t time sig none = none
  envelope_with magic t time sig (some m) =
      some
        (record { magic = magic; message_type = t; timestamp = time; message = m; signature = sig })

  abbrev pub unframed : Option (Values envelope_kinds) → Option Envelope
  unframed none = none
  unframed (some (magic, (t, (time, (buf, (sig, _)))))) =
      envelope_with magic t time sig (decode_message D t buf)

  -- `(*Envelope).Decode`
  unfoldable pub decode_envelope : Bytes → Option Envelope
  decode_envelope b = unframed (D.decode_fields envelope_kinds b)

  abbrev unsigned : ℕ → Message → ℕ → Envelope
  unsigned magic m now = record {
    magic = magic;
    message_type = msg_type m;
    timestamp = now;
    message = m;
    signature = [];
  }

  abbrev pub signed : ℕ → Message → ℕ → Option Signature → Option Envelope
  signed magic m now none = none
  signed magic m now (some sig) = envelope_with magic (msg_type m) now sig (some m)

  -- `NewEnvelope` at a time; the signature does not depend on the one that the envelope has.
  unfoldable pub new_envelope : (C : Curve) → C.PrivateKey → ℕ → Message → ℕ → Option Envelope
  new_envelope C pk magic m now =
      signed magic m now (sign C pk (envelope_hash C.blake2b (unsigned magic m now)))
