-- ===== src/Store/Json.antt =====
-- MarshalJSON and UnmarshalJSON of store/headers.go, naming.go and peers.go. A JSON object is the
-- list of its members; how encoding/json writes one as text is a parameter.
pub mod RoundTrip
use fnd.Base.{
  ℕ, ◌<◌, ◌≤◌, ◌≡◌, refl, sym, ap, ◌∙◌, Bool, true, false, Option, none, some, List, [], ◌∷◌, arith,
  Outcome, ok, err, panicked, if◌then◌else◌, ltb, ltb-false, length, All,
}
use fnd.Base.Bytes.{Bytes, bytes_dec}
use fnd.Base.Text.{codes, hex_encode, hex_decode, hex_decode-hex_encode, IsByte}
use fnd.Base.GoMap
use fnd.Blob.Consts.{hash_len}
use fnd.Crypto.{
  signature_len, hash_string, signature_string, new_hash_from_bytes, new_signature_from_bytes,
}
use fnd.Store.Types.{Time, Header, NameInfo, PublicKey, Peer}
use fnd.Store.Interface.{DbError}

pub data Value : Type 0 where
  text : Bytes → Value
  number : ℕ → Value
  boolean : Bool → Value
  moment : Time → Value

abbrev pub Document : Type 0
Document = List (Bytes × Value)

-- `json.Marshal` and `json.Unmarshal` of an object.
pub record JsonText : Type 0 where
  pub marshal : Document → Option Bytes
  pub unmarshal : Bytes → Option Document

-- ASCII strings, and times before the year 10000.
abbrev pub IsPlain : Bytes × Value → Type 0
IsPlain (tag, text s) = All (λ c. c < 128) s
IsPlain (tag, number n) = Unit {0}
IsPlain (tag, boolean b) = Unit {0}
IsPlain (tag, moment none) = Unit {0}
IsPlain (tag, moment (some t)) = t < 253_402_300_800

-- Plain objects are read back as they were written.
pub record ReadsBack (J : JsonText) : Type 0 where
  pub written : Document → Bytes
  pub marshal_lem : (d : Document) → All IsPlain d → J.marshal d ≡ some (written d)
  pub unmarshal_lem : (d : Document) → All IsPlain d → J.unmarshal (written d) ≡ some d

module _ {A B : Type 0} where
  infixl 5 ◌>>=◌
  abbrev ◌>>=◌ : Option A → (A → Option B) → Option B
  some a >>= f = f a
  none >>= f = none

-- A member that is missing leaves the zero value; one of another type is an error.
abbrev as_text : Option Value → Option Bytes
as_text none = some []
as_text (some (text s)) = some s
as_text (some (number n)) = none
as_text (some (boolean b)) = none
as_text (some (moment t)) = none

abbrev as_number : ℕ → Option Value → Option ℕ
as_number limit none = some 0
as_number limit (some (text s)) = none
as_number limit (some (number n)) = if ltb limit n then none else some n
as_number limit (some (boolean b)) = none
as_number limit (some (moment t)) = none

abbrev as_bool : Option Value → Option Bool
as_bool none = some false
as_bool (some (text s)) = none
as_bool (some (number n)) = none
as_bool (some (boolean b)) = some b
as_bool (some (moment t)) = none

abbrev as_time : Option Value → Option Time
as_time none = some none
as_time (some (text s)) = none
as_time (some (number n)) = none
as_time (some (boolean b)) = none
as_time (some (moment t)) = some t

unfoldable pub member : Bytes → Document → Option Value
member = GoMap.get bytes_dec

abbrev pub max_uint16 : ℕ
max_uint16 = 65_535

abbrev pub max_int : ℕ
max_int = 9_223_372_036_854_775_807

-- `(*Header).MarshalJSON`
unfoldable pub header_document : Header → Document
header_document h =
    (codes "name", text h.name)
    ∷ ((codes "epoch_height", number h.epoch_height)
        ∷ ((codes "sector_size", number h.sector_size)
            ∷ ((codes "sector_tip_hash", text (hash_string h.sector_tip_hash))
                ∷ ((codes "signature", text (signature_string h.signature))
                    ∷ ((codes "reserved_root", text (hash_string h.reserved_root))
                        ∷ ((codes "epoch_start_at", moment h.epoch_start_at) ∷ []))))))

-- `(*Header).UnmarshalJSON`
unfoldable pub document_header : Document → Option Header
document_header d = do
  name ← as_text (member (codes "name") d)
  epoch_height ← as_number max_uint16 (member (codes "epoch_height") d)
  sector_size ← as_number max_uint16 (member (codes "sector_size") d)
  tip_text ← as_text (member (codes "sector_tip_hash") d)
  signature_text ← as_text (member (codes "signature") d)
  root_text ← as_text (member (codes "reserved_root") d)
  epoch_start_at ← as_time (member (codes "epoch_start_at") d)
  mr_b ← hex_decode tip_text
  mr ← new_hash_from_bytes mr_b
  sig_b ← hex_decode signature_text
  sig ← new_signature_from_bytes sig_b
  rr_b ← hex_decode root_text
  rr ← new_hash_from_bytes rr_b
  some (record {
    name = name;
    epoch_height = epoch_height;
    sector_size = sector_size;
    sector_tip_hash = mr;
    signature = sig;
    reserved_root = rr;
    epoch_start_at = epoch_start_at;
  })

-- `(*NameInfo).MarshalJSON`
unfoldable pub name_document : NameInfo → Document
name_document n =
    (codes "name", text n.name)
    ∷ ((codes "public_key", text (hex_encode n.public_key))
        ∷ ((codes "import_height", number n.import_height) ∷ []))

abbrev pub must {ℓ} : {A : Type ℓ} → Option A → Outcome DbError A
must (some a) = ok a
must none = panicked

-- `mustDecodePublicKey`; `parse_pub_key` is btcec.ParsePubKey, with the key compressed.
unfoldable pub must_decode_public_key :
    (Bytes → Option PublicKey) → Bytes → Outcome DbError PublicKey
must_decode_public_key parse_pub_key in_text = must (hex_decode in_text >>= parse_pub_key)

abbrev with_key : Bytes → ℕ → Outcome DbError PublicKey → Outcome DbError NameInfo
with_key name height (ok key) =
    ok (record { name = name; public_key = key; import_height = height })
with_key name height (err e) = err e
with_key name height panicked = panicked

abbrev read_name_info :
    (Bytes → Option PublicKey) → Option Bytes → Option Bytes → Option ℕ → Outcome DbError NameInfo
read_name_info parse_pub_key (some name) (some key) (some height) =
    with_key name height (must_decode_public_key parse_pub_key key)
read_name_info parse_pub_key (some name) (some key) none = panicked
read_name_info parse_pub_key (some name) none height = panicked
read_name_info parse_pub_key none key height = panicked

-- `(*NameInfo).UnmarshalJSON` under mustUnmarshalJSON, which panics on its error.
unfoldable pub document_name : (Bytes → Option PublicKey) → Document → Outcome DbError NameInfo
document_name parse_pub_key d =
    read_name_info parse_pub_key (as_text (member (codes "name") d))
      (as_text (member (codes "public_key") d))
      (as_number max_int (member (codes "import_height") d))

-- `(*Peer).MarshalJSON`: the bans are not part of it.
unfoldable pub peer_document : Peer → Document
peer_document p =
    (codes "peer_id", text (hash_string p.id))
    ∷ ((codes "ip", text p.ip)
        ∷ ((codes "last_seen", moment p.last_seen) ∷ ((codes "verify", boolean p.verify) ∷ [])))

-- `(*Peer).UnmarshalJSON`
unfoldable pub document_peer : Document → Option Peer
document_peer d = do
  id_text ← as_text (member (codes "peer_id") d)
  ip ← as_text (member (codes "ip") d)
  last_seen ← as_time (member (codes "last_seen") d)
  verify ← as_bool (member (codes "verify") d)
  id_b ← hex_decode id_text
  id ← new_hash_from_bytes id_b
  some (record {
    id = id;
    ip = ip;
    last_seen = last_seen;
    verify = verify;
    inbound_banned_until = none;
    outbound_banned_until = none;
    whitelisted = false;
  })

module _ (J : JsonText) where
  -- `mustMarshalJSON`
  unfoldable pub must_marshal_json : Document → Outcome DbError Bytes
  must_marshal_json d = must (J.marshal d)

  -- `mustUnmarshalJSON` of a header and of a peer, and of a name.
  unfoldable pub read_header : Bytes → Outcome DbError Header
  read_header b = must (J.unmarshal b >>= document_header)

  unfoldable pub read_peer : Bytes → Outcome DbError Peer
  read_peer b = must (J.unmarshal b >>= document_peer)

  abbrev read_document :
      {A : Type 0} → Option Document → (Document → Outcome DbError A) → Outcome DbError A
  read_document none f = panicked
  read_document (some d) f = f d

  unfoldable pub read_name : (Bytes → Option PublicKey) → Bytes → Outcome DbError NameInfo
  read_name parse_pub_key b = read_document (J.unmarshal b) (document_name parse_pub_key)
