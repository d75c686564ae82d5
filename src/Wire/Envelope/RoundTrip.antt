-- ===== src/Wire/Envelope/RoundTrip.antt =====
-- wire/envelope.go: an envelope that was encoded is decoded.
use fnd.Base.{[], ◌≡◌, refl, ap, ◌∙◌, Option, none, some}
use fnd.Base.Bytes.{Bytes}
use fnd.Wire.Fields.{AllFit, Dwire, ReadsBack}
use fnd.Wire.Message.{msg_type, encode_message, decode_message}
use fnd.Wire.Message.RoundTrip.{IsPlain, decode_message-encode_message}
use fnd.Wire.Envelope.{Envelope, envelope_kinds, framed, encode_envelope, decode_envelope}

module _ (D : Dwire) (R : ReadsBack D) where
  -- The numbers of the envelope fit their types, the time is below 2 ^ 32 seconds, and the
  -- signature has 65 bytes.
  abbrev pub IsSized : Envelope → Type 0
  IsSized e =
      AllFit envelope_kinds (e.magic, (e.message_type, (e.timestamp, ([], (e.signature, tt)))))

  framed-decodes :
      (e : Envelope) (o : Option Bytes) {b : Bytes}
      → IsSized e
      → ((buf : Bytes) → o ≡ some buf → decode_message D e.message_type buf ≡ some e.message)
      → framed D e o ≡ some b
      → decode_envelope D b ≡ some e
  unfolding decode_envelope
  framed-decodes e none z h q = cc
  framed-decodes e (some buf) z h q =
      rw (R.decode-encode envelope_kinds _ z q) (rw (h buf refl) refl)

  -- The bytes that Encode of an envelope writes are decoded to the envelope, if its type is that of
  -- its message, its time is below 2 ^ 32 seconds, all fields fit their types, and the key or the
  -- addresses in the message are in the form that Decode gives them.
  pub decode_envelope-encode_envelope :
      (e : Envelope) {b : Bytes}
      → IsPlain D R e.message
      → IsSized e
      → e.message_type ≡ msg_type e.message
      → encode_envelope D e ≡ some b
      → decode_envelope D b ≡ some e
  unfolding encode_envelope
  decode_envelope-encode_envelope e plain sized typed q =
      framed-decodes e (encode_message D e.message) sized
        (λ buf p.
          ap (λ t. decode_message D t buf) typed
          ∙ decode_message-encode_message D R e.message plain p)
        q
