-- ===== src/Wire/Envelope/Signing.antt =====
-- wire/envelope.go: what the signature of an envelope stands for.
use fnd.Base.{ℕ, ◌≡◌, refl, ap, ◌∙◌, subst, true, Option, none, some, []}
use fnd.Base.Bytes.{Bytes}
use fnd.Blob.Consts.{Hash}
use fnd.Store.Types.{Signature}
use fnd.Crypto.{Curve, Recovers, sign, verify_sig_pub, verify-sign}
use fnd.Wire.Fields.{Dwire}
use fnd.Wire.Message.{Message, msg_type, encode_message}
use fnd.Wire.Envelope.{Envelope, hashed_bytes, digest, envelope_hash, signed, new_envelope}

-- The envelope with another message.
abbrev pub carrying : Message → Envelope → Envelope
carrying m e = record {
  magic = e.magic;
  message_type = e.message_type;
  timestamp = e.timestamp;
  message = m;
  signature = e.signature;
}

module _ (D : Dwire) (C : Curve) (R : Recovers C) where
  abbrev envelope_of : ℕ → Message → ℕ → Signature → Envelope
  envelope_of magic m now s = record {
    magic = magic;
    message_type = msg_type m;
    timestamp = now;
    message = m;
    signature = s;
  }

  some_eq : {a b : Envelope} → ◌≡◌ {A = Option Envelope} (some a) (some b) → a ≡ b
  some_eq e = cc

  -- The signature recovers the key over the digest that was signed.
  signed-verifies :
      (pk : C.PrivateKey) (magic now : ℕ) (m m' : Message) (h : Option Hash) (r : Option Signature)
      {e : Envelope}
      → sign C pk h ≡ r
      → signed D magic m now r ≡ some e
      → ((s : Signature) → envelope_hash D C.blake2b (carrying m' (envelope_of magic m now s)) ≡ h)
      → verify_sig_pub C (C.pub_key pk) e.signature (envelope_hash D C.blake2b (carrying m' e))
        ≡ true
  signed-verifies pk magic now m m' h none p q same = cc
  signed-verifies pk magic now m m' h (some s) p q same =
      subst
        (λ e.
          verify_sig_pub C (C.pub_key pk) e.signature (envelope_hash D C.blake2b (carrying m' e))
          ≡ true)
        (some_eq q)
        (ap (verify_sig_pub C (C.pub_key pk) s) (same s)
          ∙ (verify-sign C R pk h (C.pub_key pk) [] p).0.1 refl)

  encoded-transfers :
      (pk : C.PrivateKey) (magic now : ℕ) (m m' : Message) (buf : Bytes) (o : Option Bytes)
      {e : Envelope}
      → signed D magic m now
          (sign C pk (digest D C.blake2b (hashed_bytes D (envelope_of magic m now []) o)))
        ≡ some e
      → encode_message D m' ≡ some buf
      → verify_sig_pub C (C.pub_key pk) e.signature (envelope_hash D C.blake2b (carrying m' e))
        ≡ true
  unfolding envelope_hash sign
  encoded-transfers pk magic now m m' buf none made p = cc
  encoded-transfers pk magic now m m' buf (some x) made p =
      let h = digest D C.blake2b (hashed_bytes D (envelope_of magic m now []) (some x)) in
      signed-verifies pk magic now m m' h (sign C pk h) refl made (λ s. rw p refl)

  -- The signature that NewEnvelope makes is accepted for the envelope, and also when its message
  -- is replaced with any other that can be encoded: the signature does not cover the message.
  pub new_envelope-transfers :
      (pk : C.PrivateKey) (magic now : ℕ) (m m' : Message) (buf : Bytes) {e : Envelope}
      → new_envelope D C pk magic m now ≡ some e
      → encode_message D m' ≡ some buf
      → verify_sig_pub C (C.pub_key pk) e.signature (envelope_hash D C.blake2b (carrying m' e))
        ≡ true
  unfolding new_envelope envelope_hash
  new_envelope-transfers pk magic now m m' buf made p =
      encoded-transfers pk magic now m m' buf (encode_message D m) made p
