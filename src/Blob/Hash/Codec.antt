-- ===== src/Blob/Hash/Codec.antt =====
-- blob/hash.go: comparing arrays of hashes, and their encoding.
use fnd.Base.{
  inl, inr, subst, Outcome, err, panicked, ℕ, zero, suc, ◌<◌, ◌≡◌, ◌≢◌, ◌↔◌, refl, sym, ap, ◌∙◌,
  Bool, true, false, Option, none, some, [], ◌∷◌, ◌++◌, arith, if_pos, if_neg, length, take, drop,
  ok, All, take-append, drop-append, drop_all, append-nil, Bool-cases,
}
use fnd.Base.Bytes.{Bytes, bytes_dec}
use fnd.Blob.Consts.{Hash, zero_hash, max_sectors, hash_len}
use fnd.Blob.Hash.{
  CodecError, SectorHashes, at_or_zero, same_hashes, first_diff, diff_with, encode, decode_loop,
  decode,
}

same_hashes_self : (s : SectorHashes) → same_hashes s s ≡ true
unfolding same_hashes
same_hashes_self [] = refl
same_hashes_self (h ∷ s) = if_pos (bytes_dec h h) refl _ _ ∙ same_hashes_self s

same_hashes-first_diff :
    (s t : SectorHashes)
    → length s ≡ length t
    → same_hashes s t ≡ false
    → (first_diff s t < length s)
      × (take (first_diff s t) s ≡ take (first_diff s t) t)
      × (at_or_zero s (first_diff s t) ≢ at_or_zero t (first_diff s t))
unfolding same_hashes first_diff
same_hashes-first_diff [] [] l e = cc
same_hashes-first_diff [] (y ∷ t) l e = absurd (omega arith)
same_hashes-first_diff (x ∷ s) [] l e = absurd (omega arith)
same_hashes-first_diff (x ∷ s) (y ∷ t) l e = elim (bytes_dec x y) [
  | yes p ↦
      let rest : (first_diff s t < length s)
          × (take (first_diff s t) s ≡ take (first_diff s t) t)
          × (at_or_zero s (first_diff s t) ≢ at_or_zero t (first_diff s t)) =
        same_hashes-first_diff s t (omega arith) (sym (if_pos (bytes_dec x y) p _ _) ∙ e) in
      rw (if_pos (bytes_dec x y) p) (omega arith, cc (p, rest.1), rest.2)
  | no p ↦ rw (if_neg (bytes_dec x y) p) (omega arith, refl, p)
]

same_hashes-eq : (s t : SectorHashes) → same_hashes s t ≡ true → s ≡ t
unfolding same_hashes
same_hashes-eq [] [] e = refl
same_hashes-eq [] (y ∷ t) e = cc
same_hashes-eq (x ∷ s) [] e = cc
same_hashes-eq (x ∷ s) (y ∷ t) e = elim (bytes_dec x y) [
  | yes p ↦ cc (p, same_hashes-eq s t (sym (if_pos (bytes_dec x y) p _ _) ∙ e))
  | no p ↦ absurd (false-ne-true (sym (if_neg (bytes_dec x y) p _ _) ∙ e))
]
  where
    false-ne-true : ◌≡◌ {A = Bool} false true → ⊥
    false-ne-true q = cc

-- `DiffWith` of arrays of one length answers -1 exactly for equal arrays, and otherwise the first
-- index at which they differ.
pub diff_with-first :
    (s t : SectorHashes)
    → length s ≡ length t
    → ((diff_with s t ≡ none) ↔ (s ≡ t))
      × ((i : ℕ)
          → diff_with s t ≡ some i
          → (i < length s) × (take i s ≡ take i t) × (at_or_zero s i ≢ at_or_zero t i))
unfolding diff_with
diff_with-first s t l = elim (Bool-cases (same_hashes s t)) [
  | inl e ↦ rw e (((λ _. same_hashes-eq s t e), (λ _. refl)), λ i q. cc)
  | inr e ↦ rw e (((λ q. cc), (λ q. cc (q, e, same_hashes_self s))), first e)
]
  where
    index : {a b : ℕ} → ◌≡◌ {A = Option ℕ} (some a) (some b) → a ≡ b
    index q = cc

    first :
        (e : same_hashes s t ≡ false) (i : ℕ)
        → some (first_diff s t) ≡ some i
        → (i < length s) × (take i s ≡ take i t) × (at_or_zero s i ≢ at_or_zero t i)
    first e i q =
        subst (λ k. (k < length s) × (take k s ≡ take k t) × (at_or_zero s k ≢ at_or_zero t k))
          (index q) (same_hashes-first_diff s t l e)

-- One round of the loop, over the bytes that it took and those that it left.
decode_rest : ℕ → Hash → Bytes → Bytes → Outcome CodecError SectorHashes
decode_rest n hash got left = elim (decode_loop n (got ++ drop (length got) hash) left) [
  | ok s ↦ ok ((got ++ drop (length got) hash) ∷ s)
  | err e ↦ err e
  | panicked ↦ panicked
]

decode_loop-hash :
    (n : ℕ) (hash h r : Bytes)
    → length h ≡ hash_len
    → decode_loop (suc n) hash (h ++ r) ≡ decode_rest n hash h r
unfolding decode_loop decode_rest
decode_loop-hash n hash [] r l = absurd (omega arith)
decode_loop-hash n hash (b ∷ h) r l =
    ap (λ got. decode_rest n hash got (drop hash_len (b ∷ (h ++ r)))) taken
    ∙ ap (decode_rest n hash (b ∷ h)) left
  where
    taken : take hash_len (b ∷ (h ++ r)) ≡ b ∷ h
    taken = ap (λ k. take k (b ∷ (h ++ r))) (sym l) ∙ take-append (b ∷ h) r

    left : drop hash_len (b ∷ (h ++ r)) ≡ r
    left = ap (λ k. drop k (b ∷ (h ++ r))) (sym l) ∙ drop-append (b ∷ h) r

decode_loop-encode :
    (n : ℕ) (s : SectorHashes) (hash : Hash)
    → length hash ≡ hash_len
    → length s ≡ n
    → All (λ h. length h ≡ hash_len) s
    → decode_loop n hash (encode s) ≡ ok s
unfolding encode decode_rest
decode_loop-encode zero [] hash lh l a = unfold decode_loop in refl
decode_loop-encode zero (h ∷ s) hash lh l a = absurd (omega arith)
decode_loop-encode (suc n) [] hash lh l a = absurd (omega arith)
decode_loop-encode (suc n) (h ∷ s) hash lh l a =
    decode_loop-hash n hash h (encode s) a.0
    ∙ rw (whole, decode_rest)
        (rw (decode_loop-encode n s h a.0 (omega arith) a.1) (ap (λ g. ok (g ∷ s)) whole))
  where
    whole : h ++ drop (length h) hash ≡ h
    whole = rw (drop_all hash (length h) (omega arith)) (append-nil h)

-- Decoding what `Encode` wrote gives the array back, for every array of 4096 hashes of 32 bytes.
pub decode-encode :
    (s : SectorHashes)
    → length s ≡ max_sectors
    → All (λ h. length h ≡ hash_len) s
    → decode (encode s) ≡ ok s
unfolding decode
decode-encode s l a = decode_loop-encode max_sectors s zero_hash refl l a
