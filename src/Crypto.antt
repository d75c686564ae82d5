-- ===== src/Crypto.antt =====
-- crypto/hash.go and crypto/signature.go. The curve of github.com/btcsuite/btcd and blake2b are
-- parameters.
use fnd.Base.{
  ℕ, ◌≡◌, refl, sym, ◌↔◌, Bool, true, false, Option, none, some, if◌then◌else◌, ◌==◌, length, All,
  holds, holds_yes,
}
use fnd.Base.Bytes.{Bytes, bytes_dec}
use fnd.Base.Text.{hex_encode, hex_decode, hex_decode-hex_encode, IsByte}
use fnd.Blob.Consts.{Hash, zero_hash, hash_len}
use fnd.Store.Types.{Signature, PublicKey}

abbrev pub signature_len : ℕ
signature_len = 65

-- `(Hash).String` and `(Signature).String`
unfoldable pub hash_string : Hash → Bytes
hash_string h = hex_encode h

unfoldable pub signature_string : Signature → Bytes
signature_string s = hex_encode s

-- `NewHashFromBytes`; `none` is its error.
unfoldable pub new_hash_from_bytes : Bytes → Option Hash
new_hash_from_bytes b = if length b == hash_len then some b else none

-- `NewSignatureFromBytes`
unfoldable pub new_signature_from_bytes : Bytes → Option Signature
new_signature_from_bytes b = if length b == signature_len then some b else none

-- `NewHashFromHex`: text that is not hex is the zero hash, and no error.
unfoldable pub new_hash_from_hex : Bytes → Option Hash
new_hash_from_hex text = elim (hex_decode text) [
  | some b ↦ new_hash_from_bytes b
  | none ↦ some zero_hash
]

-- A signature comes from a private key and the hash of a message; a public key is recovered from a
-- signature and a hash, or the signature is malformed.
pub record Curve : Type 1 where
  pub PrivateKey : Type 0
  pub sign_compact : PrivateKey → Hash → Option Signature
  pub pub_key : PrivateKey → PublicKey
  pub recover_compact : Signature → Hash → Option PublicKey
  pub blake2b : Bytes → Hash

-- The documentation of SignCompact: its signatures recover the key that signed.
pub record Recovers (C : Curve) : Type 0 where
  pub recover-sign :
      (pk : C.PrivateKey) (h : Hash) {s : Signature}
      → C.sign_compact pk h ≡ some s
      → C.recover_compact s h ≡ some (C.pub_key pk)

module _ (C : Curve) where
  -- `(*SECP256k1Signer).Sign` of a message whose Hash answers `hash`.
  unfoldable pub sign : C.PrivateKey → Option Hash → Option Signature
  sign pk none = none
  sign pk (some hash) = C.sign_compact pk hash

  -- `HashPub`
  unfoldable pub hash_pub : PublicKey → Hash
  hash_pub key = C.blake2b key

  abbrev recovered : Option PublicKey → (PublicKey → Bool) → Bool
  recovered none test = false
  recovered (some key) test = test key

  -- `VerifySigPub`
  unfoldable pub verify_sig_pub : PublicKey → Signature → Option Hash → Bool
  verify_sig_pub key signature none = false
  verify_sig_pub key signature (some hash) =
      recovered (C.recover_compact signature hash) (λ k. holds (bytes_dec k key))

  -- `VerifySigHashedPub`
  unfoldable pub verify_sig_hashed_pub : Hash → Signature → Option Hash → Bool
  verify_sig_hashed_pub id signature none = false
  verify_sig_hashed_pub id signature (some hash) =
      recovered (C.recover_compact signature hash) (λ k. holds (bytes_dec (hash_pub k) id))

-- A hash that was printed is read back.
pub new_hash_from_hex-hash_string :
    (h : Hash) → length h ≡ hash_len → All IsByte h → new_hash_from_hex (hash_string h) ≡ some h
unfolding new_hash_from_hex hash_string new_hash_from_bytes
new_hash_from_hex-hash_string h l a = rw (hex_decode-hex_encode h a, new_hash_from_hex) (rw l refl)

-- A text that is not hex is read as the zero hash, without an error.
pub new_hash_from_hex-bad :
    (text : Bytes) → hex_decode text ≡ none → new_hash_from_hex text ≡ some zero_hash
unfolding new_hash_from_hex
new_hash_from_hex-bad text e = rw (e, new_hash_from_hex) refl

module _ (C : Curve) (R : Recovers C) where
  holds-bytes : (a b : Bytes) → (holds (bytes_dec a b) ≡ true) ↔ (b ≡ a)
  holds-bytes a b = (from (bytes_dec a b), λ e. holds_yes (bytes_dec a b) (sym e))
    where
      from : (d : Dec (a ≡ b)) → holds d ≡ true → b ≡ a
      from (yes p) e = sym p
      from (no n) e = absurd cc

  -- What a private key signed over a hash is accepted for its public key and for no other key, and
  -- for the hash of its public key and for no other id.
  pub verify-sign :
      (pk : C.PrivateKey) (hash : Option Hash) {s : Signature} (key : PublicKey) (id : Hash)
      → sign C pk hash ≡ some s
      → ((verify_sig_pub C key s hash ≡ true) ↔ (key ≡ C.pub_key pk))
        × ((verify_sig_hashed_pub C id s hash ≡ true) ↔ (id ≡ hash_pub C (C.pub_key pk)))
  unfolding sign verify_sig_pub verify_sig_hashed_pub
  verify-sign pk none key id e = cc
  verify-sign pk (some h) key id e =
      rw (R.recover-sign pk h e)
        (holds-bytes (C.pub_key pk) key, holds-bytes (hash_pub C (C.pub_key pk)) id)
