-- ===== src/Tests/Memory.antt =====
-- A leveldb in memory that is healthy, and a text for JSON objects that is read back: instances of
-- what the package store takes.
use fnd.Base.{
  ℕ, zero, suc, ◌≡◌, ◌⊎◌, refl, sym, ap, ◌∙◌, Option, none, some, List, [], ◌∷◌, ◌++◌, Bool, true,
  false, ok, All, length, if_neg, if◌then◌else◌, ltb, Bool-cases, inl, inr, ◌&&◌, not, ◌==◌,
}
use fnd.Base.Bytes.{Bytes, bytes_dec}
use fnd.Base.GoMap.{Map, get, put, delete, get-put, get-delete}
use fnd.Base.Text.{strip_prefix}
use fnd.Store.Json.{JsonText, ReadsBack, Document, Value, text, number, boolean, moment}
use fnd.Store.Leveldb.{Leveldb, IsHealthy, found, is_some, In}

abbrev pub Disk : Type 0
Disk = Map Bytes Bytes

-- The values of a range, in the order in which the keys were put.
unfoldable pub in_order : Bytes → Bytes → Bool
in_order [] b = true
in_order (x ∷ a) [] = false
in_order (x ∷ a) (y ∷ b) = if ltb x y then true else if x == y then in_order a b else false

unfoldable pub values_if : (Bytes → Bool) → Disk → List Bytes
values_if test [] = []
values_if test ((k, v) ∷ m) = let rest = values_if test m in if test k then v ∷ rest else rest

unfoldable pub keys_if : (Bytes → Bool) → Disk → List Bytes
keys_if test [] = []
keys_if test ((k, v) ∷ m) = let rest = keys_if test m in if test k then k ∷ rest else rest

abbrev pub memory : Leveldb
memory = record {
  Db = Disk;
  Tx = Disk;
  get = λ d k. found (get bytes_dec k d);
  has = λ d k. ok (is_some (get bytes_dec k d));
  prefix_values = λ d p. values_if (λ k. is_some (strip_prefix p k)) d;
  range_values = λ d start limit. values_if (λ k. in_order start k && not (in_order limit k)) d;
  open_transaction = λ d. ok d;
  tx_get = λ t k. found (get bytes_dec k t);
  tx_has = λ t k. ok (is_some (get bytes_dec k t));
  tx_prefix_keys = λ t p. keys_if (λ k. is_some (strip_prefix p k)) t;
  tx_put = λ k v t. (ok tt, put bytes_dec k v t);
  tx_delete = λ k t. (ok tt, delete bytes_dec k t);
  commit = λ t. (ok tt, t);
}

pub keys_if-All : (test : Bytes → Bool) (m : Disk) → All (λ k. test k ≡ true) (keys_if test m)
unfolding keys_if
keys_if-All test [] = tt
keys_if-All test ((k, v) ∷ m) = elim (Bool-cases (test k)) [
  | inl y ↦ rw y (y, keys_if-All test m)
  | inr n ↦ rw n (keys_if-All test m)
]

pub keys_if-In :
    (test : Bytes → Bool) (m : Disk) (k v : Bytes)
    → test k ≡ true
    → get bytes_dec k m ≡ some v
    → In k (keys_if test m)
unfolding keys_if get
keys_if-In test [] k v t g = absurd (missing g)
  where
    missing : {a : Bytes} → ◌≡◌ {A = Option Bytes} none (some a) → ⊥
    missing e = cc
keys_if-In test ((j, w) ∷ m) k v t g = elim (bytes_dec j k) [
  | yes p ↦ rw (ap test p ∙ t) (inl (sym p))
  | no n ↦
      later (Bool-cases (test j)) (keys_if-In test m k v t (sym (if_neg (bytes_dec j k) n _ _) ∙ g))
]
  where
    later :
        (test j ≡ true) ⊎ (test j ≡ false)
        → In k (keys_if test m)
        → In k (keys_if test ((j, w) ∷ m))
    later (inl y) i = rw y (inr i)
    later (inr n) i = rw n i

unfoldable pub memory-IsHealthy : IsHealthy memory
memory-IsHealthy = record {
  stored = λ d k. get bytes_dec k d;
  pending = λ t k. get bytes_dec k t;
  begin = λ d. d;
  get_lem = λ d k. refl;
  has_lem = λ d k. refl;
  open_lem = λ d. refl;
  pending-begin = λ d k. refl;
  tx_get_lem = λ t k. refl;
  tx_has_lem = λ t k. refl;
  put_succeeds = λ t k v. refl;
  pending-put = λ t k v j. get-put bytes_dec k j v t;
  delete_succeeds = λ t k. refl;
  pending-delete = λ t k j. get-delete bytes_dec k j t;
  keys_sound = λ t p. keys_if-All (λ k. is_some (strip_prefix p k)) t;
  keys_complete = λ t p k v h g. keys_if-In (λ j. is_some (strip_prefix p j)) t k v h g;
  commit_succeeds = λ t. refl;
  stored-commit = λ t k. refl;
}

-- A text is marked element by element and ended by a zero.
unfoldable pub write_text : Bytes → Bytes
write_text [] = 0 ∷ []
write_text (c ∷ s) = 1 ∷ (c ∷ write_text s)

abbrev cons_first : ℕ → Option (Bytes × Bytes) → Option (Bytes × Bytes)
cons_first c none = none
cons_first c (some (s, r)) = some (c ∷ s, r)

unfoldable pub read_text : Bytes → Option (Bytes × Bytes)
read_text [] = none
read_text (zero ∷ r) = some ([], r)
read_text (suc n ∷ []) = none
read_text (suc n ∷ (c ∷ r)) = cons_first c (read_text r)

read_text-write : (s r : Bytes) → read_text (write_text s ++ r) ≡ some (s, r)
unfolding read_text write_text
read_text-write [] r = refl
read_text-write (c ∷ s) r = ap (cons_first c) (read_text-write s r)

unfoldable pub write_value : Value → Bytes
write_value (text s) = 0 ∷ write_text s
write_value (number n) = 1 ∷ (n ∷ [])
write_value (boolean true) = 2 ∷ (1 ∷ [])
write_value (boolean false) = 2 ∷ (0 ∷ [])
write_value (moment none) = 3 ∷ (0 ∷ [])
write_value (moment (some t)) = 4 ∷ (t ∷ [])

abbrev text_value : Option (Bytes × Bytes) → Option (Value × Bytes)
text_value none = none
text_value (some (s, r)) = some (text s, r)

abbrev tagged : ℕ → ℕ → Bytes → Option (Value × Bytes)
tagged k n r =
    if k == 1
    then some (number n, r)
    else if k == 2
    then some (boolean (n == 1), r)
    else if k == 3
    then some (moment none, r)
    else some (moment (some n), r)

unfoldable pub read_value : Bytes → Option (Value × Bytes)
read_value [] = none
read_value (zero ∷ r) = text_value (read_text r)
read_value (suc k ∷ []) = none
read_value (suc k ∷ (n ∷ r)) = tagged (suc k) n r

read_value-write : (v : Value) (r : Bytes) → read_value (write_value v ++ r) ≡ some (v, r)
unfolding read_value write_value
read_value-write (text s) r = ap text_value (read_text-write s r)
read_value-write (number n) r = refl
read_value-write (boolean true) r = refl
read_value-write (boolean false) r = refl
read_value-write (moment none) r = refl
read_value-write (moment (some t)) r = refl

unfoldable pub write_members : Document → Bytes
write_members [] = []
write_members ((tag, v) ∷ d) = write_text tag ++ (write_value v ++ write_members d)

unfoldable pub write : Document → Bytes
write d = length d ∷ write_members d

abbrev add_value : Bytes → Option (Value × Bytes) → (Bytes → Option Document) → Option Document
add_value tag none more = none
add_value tag (some (v, r)) more = elim (more r) [ none ↦ none | some d ↦ some ((tag, v) ∷ d) ]

abbrev add_member : Option (Bytes × Bytes) → (Bytes → Option Document) → Option Document
add_member none more = none
add_member (some (tag, r)) more = add_value tag (read_value r) more

unfoldable pub read_members : ℕ → Bytes → Option Document
read_members zero r = some []
read_members (suc n) r = add_member (read_text r) (read_members n)

read_members-write : (d : Document) → read_members (length d) (write_members d) ≡ some d
unfolding read_members write_members
read_members-write [] = refl
read_members-write ((tag, v) ∷ d) =
    rw (read_text-write tag (write_value v ++ write_members d))
      (rw (read_value-write v (write_members d)) (rw (read_members-write d) refl))

unfoldable pub read : Bytes → Option Document
read [] = none
read (n ∷ r) = read_members n r

abbrev pub plain_text : JsonText
plain_text = record { marshal = λ d. some (write d); unmarshal = read }

pub plain_text-ReadsBack : ReadsBack plain_text
unfolding read write
plain_text-ReadsBack = record {
  written = write;
  marshal_lem = λ d p. refl;
  unmarshal_lem = λ d p. read_members-write d;
}
