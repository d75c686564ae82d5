-- ===== src/Base/Bytes.antt =====
-- Byte strings with a decidable equality, and slices of them read and written in place.
use Prim.Native.Nat.{ℕ, zero, suc, ◌+◌, ◌≤◌}
use mathlib.Core.Path.{◌≡◌, refl, sym, ap, ◌∙◌}
use mathlib.Core.List.{List, [], ◌∷◌, ◌++◌, append-nil}
use native.Mathlib.Decide.{ℕ_discrete}
use native.Mathlib.Omega.{arith}
use fnd.Base.Lists.{
  length, take, drop, length-append, take-append, length-drop, drop-nil, drop-drop, drop_all,
}

abbrev pub Bytes : Type 0
Bytes = List ℕ

pub cons_yes : {x y : ℕ} {xs ys : Bytes} → x ≡ y → xs ≡ ys → x ∷ xs ≡ y ∷ ys
cons_yes p q = cc

pub cons_head : {x y : ℕ} {xs ys : Bytes} → x ∷ xs ≡ y ∷ ys → x ≡ y
cons_head p = cc

pub cons_tail : {x y : ℕ} {xs ys : Bytes} → x ∷ xs ≡ y ∷ ys → xs ≡ ys
cons_tail p = cc

pub nil-ne-cons : {y : ℕ} {ys : Bytes} → ◌≡◌ {A = Bytes} [] (y ∷ ys) → ⊥
nil-ne-cons p = cc

pub cons-ne-nil : {y : ℕ} {ys : Bytes} → ◌≡◌ {A = Bytes} (y ∷ ys) [] → ⊥
cons-ne-nil p = cc

unfoldable pub cons_dec :
    (x y : ℕ) (xs ys : Bytes) → Dec (x ≡ y) → Dec (xs ≡ ys) → Dec (x ∷ xs ≡ y ∷ ys)
cons_dec x y xs ys (yes p) (yes q) = yes (cons_yes p q)
cons_dec x y xs ys (no p) q = no (λ e. p (cons_head e))
cons_dec x y xs ys (yes p) (no q) = no (λ e. q (cons_tail e))

unfoldable pub bytes_dec : Discrete Bytes
unfolding cons_dec ℕ_discrete
bytes_dec [] [] = yes refl
bytes_dec [] (y ∷ ys) = no nil-ne-cons
bytes_dec (x ∷ xs) [] = no cons-ne-nil
bytes_dec (x ∷ xs) (y ∷ ys) = cons_dec x y xs ys (ℕ_discrete x y) (bytes_dec xs ys)

-- `n` bytes from `off` on.
abbrev pub slice : ℕ → ℕ → Bytes → Bytes
slice off n f = take n (drop off f)

-- `p` written at `off`; a gap after the end is filled with zeros.
pub overwrite : ℕ → Bytes → Bytes → Bytes
overwrite zero p f = p ++ drop (length p) f
overwrite (suc i) p [] = 0 ∷ overwrite i p []
overwrite (suc i) p (x ∷ f) = x ∷ overwrite i p f

pub length-overwrite :
    (off : ℕ) (p f : Bytes) → off + length p ≤ length f → length (overwrite off p f) ≡ length f
unfolding overwrite
length-overwrite zero p f h =
    omega (arith, length-append p (drop (length p) f), length-drop (length p) f)
length-overwrite (suc i) p [] h = absurd (omega arith)
length-overwrite (suc i) p (x ∷ f) h = omega (arith, length-overwrite i p f (omega arith))

-- What was written is read back, wherever it was written.
pub slice-overwrite_self : (off : ℕ) (p f : Bytes) → slice off (length p) (overwrite off p f) ≡ p
unfolding overwrite
slice-overwrite_self zero p f = take-append p (drop (length p) f)
slice-overwrite_self (suc i) p [] = slice-overwrite_self i p []
slice-overwrite_self (suc i) p (x ∷ f) = slice-overwrite_self i p f

-- Bytes before the write stay.
pub slice-overwrite_before :
    (i n off : ℕ) (p f : Bytes)
    → i + n ≤ off
    → off ≤ length f
    → slice i n (overwrite off p f) ≡ slice i n f
unfolding overwrite
slice-overwrite_before zero zero off p f h l = refl
slice-overwrite_before zero (suc n) zero p f h l = absurd (omega arith)
slice-overwrite_before zero (suc n) (suc off) p [] h l = absurd (omega arith)
slice-overwrite_before zero (suc n) (suc off) p (x ∷ f) h l =
    ap (◌∷◌ x) (slice-overwrite_before zero n off p f (omega arith) (omega arith))
slice-overwrite_before (suc i) n zero p f h l = absurd (omega arith)
slice-overwrite_before (suc i) n (suc off) p [] h l = absurd (omega arith)
slice-overwrite_before (suc i) n (suc off) p (x ∷ f) h l =
    slice-overwrite_before i n off p f (omega arith) (omega arith)

abbrev nil : Bytes
nil = []

drop-past : (p f : Bytes) (i : ℕ) → length p ≤ i → drop i (p ++ drop (length p) f) ≡ drop i f
drop-past [] f i h = refl
drop-past (x ∷ p) f zero h = absurd (omega arith)
drop-past (x ∷ p) [] (suc i) h =
    let none_left : drop (length p) nil ≡ nil = drop-nil (length p) in
    ap (λ g. drop i (p ++ g)) (sym none_left) ∙ drop-past p [] i (omega arith) ∙ drop-nil i
drop-past (x ∷ p) (y ∷ f) (suc i) h = drop-past p f i (omega arith)

-- Bytes after the write stay.
pub drop-overwrite_after :
    (i off : ℕ) (p f : Bytes)
    → off + length p ≤ i
    → off ≤ length f
    → drop i (overwrite off p f) ≡ drop i f
unfolding overwrite
drop-overwrite_after i zero p f h l = drop-past p f i (omega arith)
drop-overwrite_after i (suc off) p [] h l = absurd (omega arith)
drop-overwrite_after zero (suc off) p (x ∷ f) h l = absurd (omega arith)
drop-overwrite_after (suc i) (suc off) p (x ∷ f) h l =
    drop-overwrite_after i off p f (omega arith) (omega arith)

overwrite-append :
    (front p rest : Bytes)
    → overwrite (length front) p (front ++ rest) ≡ front ++ p ++ drop (length p) rest
unfolding overwrite
overwrite-append [] p rest = refl
overwrite-append (x ∷ front) p rest = ap (◌∷◌ x) (overwrite-append front p rest)

-- The write that follows `front`.
pub overwrite-next :
    (front p f : Bytes)
    → overwrite (length front) p (front ++ drop (length front) f)
      ≡ front ++ p ++ drop (length (front ++ p)) f
overwrite-next front p f =
    overwrite-append front p (drop (length front) f)
    ∙ ap (λ g. front ++ p ++ g)
        (drop-drop (length p) (length front) f ∙ ap (λ k. drop k f) (sym (length-append front p)))

pub overwrite_whole : (p f : Bytes) → length p ≡ length f → overwrite 0 p f ≡ p
unfolding overwrite
overwrite_whole p f h = rw (drop_all f (length p) (omega arith)) (append-nil p)
