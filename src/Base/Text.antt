-- ===== src/Base/Text.antt =====
-- Texts as lists of bytes: literals, strings.Join, prefixes, and encoding/hex.
use Prim.Native.Nat.{ℕ, ◌+◌, ◌-◌, ◌*◌, ◌/◌, ◌%◌, ◌<◌}
use Prim.Native.Char.{code}
use Prim.Native.String.{String}
use mathlib.Core.Path.{◌≡◌, refl, ap}
use mathlib.Core.List.{List, [], ◌∷◌, ◌++◌}
use mathlib.Core.Option.{Option, none, some}
use native.Mathlib.Omega.{arith}
use fnd.Base.Lists.{All}
use fnd.Base.Tests.{ltb, leb, ◌==◌, if◌then◌else◌}
use fnd.Base.Bytes.{Bytes}

abbrev pub codes : String → Bytes
codes String.[] = []
codes (String.◌∷◌ c s) = code c ∷ codes s

-- `strings.Join(parts, sep)` for a first part and the rest.
abbrev pub join : Bytes → Bytes → List Bytes → Bytes
join sep p [] = p
join sep p (q ∷ parts) = p ++ (sep ++ join sep q parts)

-- `strings.Split` at one byte.
abbrev to_first : ℕ → List Bytes → List Bytes
to_first c [] = (c ∷ []) ∷ []
to_first c (p ∷ ps) = (c ∷ p) ∷ ps

unfoldable pub split_at_byte : ℕ → Bytes → List Bytes
split_at_byte sep [] = [] ∷ []
split_at_byte sep (c ∷ s) =
    let rest = split_at_byte sep s in if c == sep then [] ∷ rest else to_first c rest

-- `strings.TrimPrefix`, with the test of `strings.HasPrefix`.
unfoldable pub strip_prefix : Bytes → Bytes → Option Bytes
strip_prefix [] s = some s
strip_prefix (p ∷ ps) [] = none
strip_prefix (p ∷ ps) (c ∷ s) = if p == c then strip_prefix ps s else none

-- `hex.EncodeToString`
unfoldable pub hex_digit : ℕ → ℕ
hex_digit n = if ltb n 10 then b'0' + n else b'a' + (n - 10)

unfoldable pub hex_encode : Bytes → Bytes
hex_encode [] = []
hex_encode (b ∷ s) = hex_digit (b / 16) ∷ (hex_digit (b % 16) ∷ hex_encode s)

-- `hex.DecodeString`; `none` is its error.
unfoldable pub hex_value : ℕ → Option ℕ
hex_value c =
    if leb b'0' c
    then if leb c b'9'
      then some (c - b'0')
      else if leb b'a' c
      then if leb c b'f' then some (c - b'a' + 10) else none
      else if leb b'A' c
      then if leb c b'F' then some (c - b'A' + 10) else none
      else none
    else none

abbrev pub hex_pair : Option ℕ → Option ℕ → Option Bytes → Option Bytes
hex_pair (some hi) (some lo) (some rest) = some ((hi * 16 + lo) ∷ rest)
hex_pair (some hi) (some lo) none = none
hex_pair (some hi) none rest = none
hex_pair none lo rest = none

unfoldable pub hex_decode : Bytes → Option Bytes
hex_decode [] = some []
hex_decode (c ∷ []) = none
hex_decode (c ∷ (d ∷ s)) = hex_pair (hex_value c) (hex_value d) (hex_decode s)

abbrev pub IsByte : ℕ → Type 0
IsByte b = b < 256

hex_value-hex_digit : (n : ℕ) → n < 16 → hex_value (hex_digit n) ≡ some n
unfolding hex_value hex_digit
hex_value-hex_digit n h = ground arith

-- What was printed in hex is read back.
pub hex_decode-hex_encode : (s : Bytes) → All IsByte s → hex_decode (hex_encode s) ≡ some s
unfolding hex_encode hex_decode
hex_decode-hex_encode [] a = refl
hex_decode-hex_encode (b ∷ s) a = rw (hex_value-hex_digit (b / 16) (omega (arith, a.0))) (
    rw (hex_value-hex_digit (b % 16) (omega arith))
      (rw (hex_decode-hex_encode s a.1) (ap (λ x. some (x ∷ s)) (omega arith))))

hex_digit-lt : (n : ℕ) → n < 16 → hex_digit n < 128
unfolding hex_digit
hex_digit-lt n h = ground arith

-- Hex is ASCII.
pub hex_encode-ascii : (s : Bytes) → All IsByte s → All (λ c. c < 128) (hex_encode s)
unfolding hex_encode
hex_encode-ascii [] a = tt
hex_encode-ascii (b ∷ s) a = (
  hex_digit-lt (b / 16) (omega (arith, a.0)),
  (hex_digit-lt (b % 16) (omega arith), hex_encode-ascii s a.1),
)
