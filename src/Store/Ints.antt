-- ===== src/Store/Ints.antt =====
-- store/naming.go, mustEncodeInt and mustDecodeInt, and store/peers.go, encodeTime and
-- mustDecodeTime: eight bytes, the highest first. Times are not before 1970.
use fnd.Base.{
  ℕ, ◌+◌, ◌*◌, ◌/◌, ◌%◌, ◌<◌, ◌≤◌, ◌≡◌, refl, ap, Option, none, some, [], ◌∷◌, arith, Outcome, ok,
  err, panicked, if◌then◌else◌, ltb, ltb-false, ◌∙◌,
}
use fnd.Base.Bytes.{Bytes}
use fnd.Store.Types.{Time}
use fnd.Store.Interface.{DbError}

abbrev pub max_int32 : ℕ
max_int32 = 2_147_483_647

abbrev pub max_int64 : ℕ
max_int64 = 9_223_372_036_854_775_807

-- `binary.BigEndian.PutUint64`
unfoldable pub put_uint64 : ℕ → Bytes
put_uint64 n =
    n / 72_057_594_037_927_936 % 256
    ∷ (n / 281_474_976_710_656 % 256
        ∷ (n / 1_099_511_627_776 % 256
            ∷ (n / 4_294_967_296 % 256
                ∷ (n / 16_777_216 % 256 ∷ (n / 65_536 % 256 ∷ (n / 256 % 256 ∷ (n % 256 ∷ [])))))))

-- `binary.BigEndian.Uint64`, which panics on fewer than eight bytes.
unfoldable pub uint64_of : Bytes → Outcome DbError ℕ
uint64_of (a ∷ (b ∷ (c ∷ (d ∷ (e ∷ (f ∷ (g ∷ (h ∷ rest)))))))) =
    ok (((((((a * 256 + b) * 256 + c) * 256 + d) * 256 + e) * 256 + f) * 256 + g) * 256 + h)
uint64_of _ = panicked

read : ℕ → Outcome DbError ℕ
read n = ok n

pub uint64_of-put_uint64 :
    (n : ℕ) → n < 18_446_744_073_709_551_616 → uint64_of (put_uint64 n) ≡ ok n
unfolding put_uint64 uint64_of read
uint64_of-put_uint64 n h = ap read (omega arith)

abbrev pub at_most : ℕ → Outcome DbError ℕ → Outcome DbError ℕ
at_most limit (ok n) = if ltb limit n then panicked else ok n
at_most limit (err e) = err e
at_most limit panicked = panicked

-- `mustEncodeInt`
unfoldable pub must_encode_int : ℕ → Bytes
must_encode_int n = put_uint64 n

-- `mustDecodeInt`
unfoldable pub must_decode_int : Bytes → Outcome DbError ℕ
must_decode_int [] = ok 0
must_decode_int (b ∷ rest) = at_most max_int32 (uint64_of (b ∷ rest))

-- `encodeTime`; the zero time is before 1970 and is never encoded.
unfoldable pub encode_time : ℕ → Bytes
encode_time t = put_uint64 t

abbrev pub to_time : Outcome DbError ℕ → Outcome DbError Time
to_time (ok t) = ok (some t)
to_time (err e) = err e
to_time panicked = panicked

-- `mustDecodeTime`; the argument is nil where the key was missing.
unfoldable pub must_decode_time : Option Bytes → Outcome DbError Time
must_decode_time none = ok none
must_decode_time (some buf) = to_time (at_most max_int64 (uint64_of buf))

abbrev pub word : ℕ
word = 18_446_744_073_709_551_616

decode_put : (n : ℕ) → must_decode_int (put_uint64 n) ≡ at_most max_int32 (uint64_of (put_uint64 n))
unfolding must_decode_int put_uint64
decode_put n = refl

-- An int that was stored is read back, and reading it panics if it is above the greatest int32.
pub must_decode_int-must_encode_int :
    (n : ℕ)
    → n < word
    → must_decode_int (must_encode_int n) ≡ (if ltb max_int32 n then panicked else ok n)
unfolding must_encode_int
must_decode_int-must_encode_int n h =
    decode_put n ∙ ap (at_most max_int32) (uint64_of-put_uint64 n h)

pub must_decode_time-encode_time :
    (t : ℕ) → t ≤ max_int64 → must_decode_time (some (encode_time t)) ≡ ok (some t)
unfolding must_decode_time encode_time
must_decode_time-encode_time t h =
    rw (uint64_of-put_uint64 t (omega arith)) (rw (ltb-false max_int64 t h) refl)
