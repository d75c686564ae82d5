-- ===== src/Tests/Codec.antt =====
-- A concrete encoding of fields that meets the laws.
use fnd.Base.{
  zero, suc, All, append_assoc, ℕ, ◌≡◌, refl, sym, ap, ◌∙◌, Option, none, some, List, [], ◌∷◌, ◌++◌,
  length, take, drop, take-append, drop-append, holds,
}
use fnd.Base.Bytes.{Bytes, bytes_dec}
use fnd.Wire.Fields.{
  Kind, Value, Values, text, u16, u32, seconds, blob, items, pairs, array, Fits, AllFit, Dwire,
  ReadsBack,
}

unfoldable pub flat : List Bytes → Bytes
flat [] = []
flat (x ∷ xs) = x ++ flat xs

unfoldable pub flat_pairs : List (Bytes × Bytes) → Bytes
flat_pairs [] = []
flat_pairs ((x, y) ∷ xs) = x ++ (y ++ flat_pairs xs)

unfoldable pub read_items : ℕ → ℕ → Bytes → List Bytes × Bytes
read_items n zero b = ([], b)
read_items n (suc c) b = let r = read_items n c (drop n b) in (take n b ∷ r.0, r.1)

unfoldable pub read_pairs : ℕ → ℕ → ℕ → Bytes → List (Bytes × Bytes) × Bytes
read_pairs m n zero b = ([], b)
read_pairs m n (suc c) b =
    let r = read_pairs m n c (drop n (drop m b)) in ((take m b, take n (drop m b)) ∷ r.0, r.1)

unfoldable pub write_value : (k : Kind) → Value k → Option Bytes
write_value text s = some (length s ∷ s)
write_value u16 n = some (n ∷ [])
write_value u32 n = some (n ∷ [])
write_value seconds n = some (n ∷ [])
write_value blob s = some (length s ∷ s)
write_value (array n) s = some (length s ∷ s)
write_value (items n) xs = some (length xs ∷ flat xs)
write_value (pairs m n) xs = some (length xs ∷ flat_pairs xs)

abbrev split_bytes : Bytes → Option (Bytes × Bytes)
split_bytes [] = none
split_bytes (n ∷ b) = some (take n b, drop n b)

abbrev split_number : Bytes → Option (ℕ × Bytes)
split_number [] = none
split_number (n ∷ b) = some (n, b)

unfoldable pub read_value : (k : Kind) → Bytes → Option (Value k × Bytes)
read_value text b = split_bytes b
read_value u16 b = split_number b
read_value u32 b = split_number b
read_value seconds b = split_number b
read_value blob b = split_bytes b
read_value (array n) b = split_bytes b
read_value (items n) [] = none
read_value (items n) (c ∷ b) = some (read_items n c b)
read_value (pairs m n) [] = none
read_value (pairs m n) (c ∷ b) = some (read_pairs m n c b)

abbrev joined : Option Bytes → Option Bytes → Option Bytes
joined (some b) (some c) = some (b ++ c)
joined (some b) none = none
joined none o = none

unfoldable pub write_fields : (ks : List Kind) → Values ks → Option Bytes
write_fields [] v = some []
write_fields (k ∷ ks) v = joined (write_value k v.0) (write_fields ks v.1)

abbrev put_value :
    (k : Kind) (ks : List Kind) → Value k → Option (Values ks) → Option (Values (k ∷ ks))
put_value k ks v none = none
put_value k ks v (some vs) = some (v, vs)

abbrev then_read :
    (k : Kind) (ks : List Kind)
    → Option (Value k × Bytes)
    → (Bytes → Option (Values ks))
    → Option (Values (k ∷ ks))
then_read k ks none f = none
then_read k ks (some r) f = put_value k ks r.0 (f r.1)

unfoldable pub read_fields : (ks : List Kind) → Bytes → Option (Values ks)
read_fields [] b = some tt
read_fields (k ∷ ks) b = then_read k ks (read_value k b) (read_fields ks)

some_eq : {a b : Bytes} → ◌≡◌ {A = Option Bytes} (some a) (some b) → a ≡ b
some_eq e = cc

split_bytes-append : (s c b : Bytes) → length s ∷ s ≡ b → split_bytes (b ++ c) ≡ some (s, c)
split_bytes-append s c b e =
    ap (λ z. split_bytes (z ++ c)) (sym e) ∙ rw (take-append s c) (rw (drop-append s c) refl)

split_number-append : (n : ℕ) (c b : Bytes) → n ∷ [] ≡ b → split_number (b ++ c) ≡ some (n, c)
split_number-append n c b e = ap (λ z. split_number (z ++ c)) (sym e)

take-sized : (n : ℕ) (x c : Bytes) → length x ≡ n → take n (x ++ c) ≡ x
take-sized n x c e = ap (λ k. take k (x ++ c)) (sym e) ∙ take-append x c

drop-sized : (n : ℕ) (x c : Bytes) → length x ≡ n → drop n (x ++ c) ≡ c
drop-sized n x c e = ap (λ k. drop k (x ++ c)) (sym e) ∙ drop-append x c

read_items-flat :
    (n : ℕ) (xs : List Bytes) (c : Bytes)
    → All (λ x. length x ≡ n) xs
    → read_items n (length xs) (flat xs ++ c) ≡ (xs, c)
unfolding read_items flat
read_items-flat n [] c h = refl
read_items-flat n (x ∷ xs) c h = rw (append_assoc x (flat xs) c) (
    rw (take-sized n x (flat xs ++ c) h.0)
      (rw (drop-sized n x (flat xs ++ c) h.0) (rw (read_items-flat n xs c h.1) refl)))

read_pairs-flat_pairs :
    (m n : ℕ) (xs : List (Bytes × Bytes)) (c : Bytes)
    → All (λ p. (length p.0 ≡ m) × (length p.1 ≡ n)) xs
    → read_pairs m n (length xs) (flat_pairs xs ++ c) ≡ (xs, c)
unfolding read_pairs flat_pairs
read_pairs-flat_pairs m n [] c h = refl
read_pairs-flat_pairs m n ((x, y) ∷ xs) c h = rw (append_assoc x (y ++ flat_pairs xs) c) (
    rw (append_assoc y (flat_pairs xs) c) (
      rw (take-sized m x (y ++ (flat_pairs xs ++ c)) h.0.0) (
        rw (drop-sized m x (y ++ (flat_pairs xs ++ c)) h.0.0) (
          rw (take-sized n y (flat_pairs xs ++ c) h.0.1) (
            rw (drop-sized n y (flat_pairs xs ++ c) h.0.1)
              (rw (read_pairs-flat_pairs m n xs c h.1) refl))))))

read_value-write_value :
    (k : Kind) (v : Value k) (b c : Bytes)
    → Fits k v
    → write_value k v ≡ some b
    → read_value k (b ++ c) ≡ some (v, c)
unfolding read_value write_value
read_value-write_value text v b c f e = split_bytes-append v c b (some_eq e)
read_value-write_value u16 v b c f e = split_number-append v c b (some_eq e)
read_value-write_value u32 v b c f e = split_number-append v c b (some_eq e)
read_value-write_value seconds v b c f e = split_number-append v c b (some_eq e)
read_value-write_value blob v b c f e = split_bytes-append v c b (some_eq e)
read_value-write_value (array n) v b c f e = split_bytes-append v c b (some_eq e)
read_value-write_value (items n) v b c f e =
    ap (λ z. read_value (items n) (z ++ c)) (sym (some_eq e)) ∙ ap some (read_items-flat n v c f)
read_value-write_value (pairs m n) v b c f e =
    ap (λ z. read_value (pairs m n) (z ++ c)) (sym (some_eq e))
    ∙ ap some (read_pairs-flat_pairs m n v c f)

joined-read :
    (k : Kind) (ks : List Kind) (v : Values (k ∷ ks)) (o p : Option Bytes) {b : Bytes}
    → Fits k v.0
    → write_value k v.0 ≡ o
    → ((c : Bytes) → p ≡ some c → read_fields ks c ≡ some v.1)
    → joined o p ≡ some b
    → read_fields (k ∷ ks) b ≡ some v
unfolding read_fields
joined-read k ks v (some a) (some c) f q r j =
    ap (read_fields (k ∷ ks)) (sym (some_eq j))
    ∙ (ap (λ z. then_read k ks z (read_fields ks)) (read_value-write_value k v.0 a c f q)
        ∙ ap (put_value k ks v.0) (r c refl))
joined-read k ks v (some a) none f q r j = cc
joined-read k ks v none p f q r j = cc

read_fields-write_fields :
    (ks : List Kind) (v : Values ks) {b : Bytes}
    → AllFit ks v
    → write_fields ks v ≡ some b
    → read_fields ks b ≡ some v
unfolding read_fields write_fields
read_fields-write_fields [] v f e = refl
read_fields-write_fields (k ∷ ks) v f e =
    joined-read k ks v (write_value k v.0) (write_fields ks v.1) f.0 refl
      (λ c r. read_fields-write_fields ks v.1 f.1 r) e

abbrev pub toy_dwire : Dwire
toy_dwire = record {
  encode_fields = write_fields;
  decode_fields = read_fields;
  parse_pub_key = some;
  to16 = some;
  ip_equal = λ a b. holds (bytes_dec a b);
}

pub toy_dwire-ReadsBack : ReadsBack toy_dwire
toy_dwire-ReadsBack = record { decode-encode = λ ks v f e. read_fields-write_fields ks v f e }
