-- ===== src/Wire/Fields.antt =====
-- What the package wire asks of fnd.localhost/dwire, of net.IP and of secp256k1: fields of some
-- kinds are encoded in a row, and decoded by their kinds.
use fnd.Base.{ℕ, ◌≡◌, ◌<◌, All, length, Bool, Option, some, List, [], ◌∷◌}
use fnd.Base.Bytes.{Bytes}
use fnd.Store.Types.{PublicKey}

-- A string, unsigned numbers, a time in seconds, a slice of bytes, and what writes so many bytes as
-- they are and reads as many with io.ReadFull (arrays, and Encode and Decode of Hash, Signature,
-- Sector, PublicKeyEncoder and IPEncoder); a slice of items that do so, and one of items that do so
-- twice in a row.
pub data Kind : Type 0 where
  text u16 u32 seconds blob : Kind
  array items : ℕ → Kind
  pairs : ℕ → ℕ → Kind

abbrev pub Value : Kind → Type 0
Value text = Bytes
Value u16 = ℕ
Value u32 = ℕ
Value seconds = ℕ
Value blob = Bytes
Value (array n) = Bytes
Value (items n) = List Bytes
Value (pairs m n) = List (Bytes × Bytes)

abbrev pub Values : List Kind → Type 0
Values [] = Unit {0}
Values (k ∷ ks) = Value k × Values ks

-- The values that the Go types have; a time is encoded as a uint32.
abbrev pub Fits : (k : Kind) → Value k → Type 0
Fits text s = Unit {0}
Fits u16 n = n < 65536
Fits u32 n = n < 4294967296
Fits seconds n = n < 4294967296
Fits blob s = Unit {0}
Fits (array n) s = length s ≡ n
Fits (items n) xs = All (λ x. length x ≡ n) xs
Fits (pairs m n) xs = All (λ p. (length p.0 ≡ m) × (length p.1 ≡ n)) xs

abbrev pub AllFit : (ks : List Kind) → Values ks → Type 0
AllFit [] v = Unit {0}
AllFit (k ∷ ks) v = Fits k v.0 × AllFit ks v.1

-- `EncodeFields` and `DecodeFields` of dwire, `ParsePubKey`, and `To16` and `Equal` of net.IP.
pub record Dwire : Type 0 where
  pub encode_fields : (ks : List Kind) → Values ks → Option Bytes
  pub decode_fields : (ks : List Kind) → Bytes → Option (Values ks)
  pub parse_pub_key : Bytes → Option PublicKey
  pub to16 : Bytes → Option Bytes
  pub ip_equal : Bytes → Bytes → Bool

-- Fields of values that fit and were encoded are decoded.
pub record ReadsBack (D : Dwire) : Type 0 where
  pub decode-encode :
      (ks : List Kind) (v : Values ks) {b : Bytes}
      → AllFit ks v
      → D.encode_fields ks v ≡ some b
      → D.decode_fields ks b ≡ some v
