-- ===== src/Base/GoMap.antt =====
-- Go's map over keys with a decidable equality, as an association list.
use Prim.Native.Nat.{◌+◌}
use fnd.Base.Lists.{length, All}
use mathlib.Core.Path.{◌≡◌, refl, sym, ◌∙◌, subst}
use mathlib.Core.Logic.{ite, if_pos, if_neg, ◌≢◌}
use mathlib.Core.List.{List, [], ◌∷◌}
use mathlib.Core.Option.{Option, none, some}
use native.Mathlib.Omega.{arith}

abbrev pub Map {ℓ} : Type ℓ → Type ℓ → Type ℓ
Map K V = List (K × V)

module _ {ℓ} {K V : Type ℓ} (dec : Discrete K) where
  -- `m[k]`
  unfoldable pub get : K → Map K V → Option V
  get k [] = none
  get k ((j, v) ∷ m) = ite (dec j k) (some v) (get k m)

  -- `m[k] = v`
  unfoldable pub put : K → V → Map K V → Map K V
  put k v [] = (k, v) ∷ []
  put k v ((j, w) ∷ m) = ite (dec j k) ((k, v) ∷ m) ((j, w) ∷ put k v m)

  -- `delete(m, k)`
  unfoldable pub delete : K → Map K V → Map K V
  delete k [] = []
  delete k ((j, w) ∷ m) = let rest = delete k m in ite (dec j k) rest ((j, w) ∷ rest)

  pub get-put_self : (k : K) (v : V) (m : Map K V) → get k (put k v m) ≡ some v
  unfolding get put
  get-put_self k v [] = if_pos (dec k k) refl _ _
  get-put_self k v ((j, w) ∷ m) = elim (dec j k) [
    | yes p ↦ rw (if_pos (dec j k) p) (if_pos (dec k k) refl _ _)
    | no p ↦ rw (if_neg (dec j k) p) (rw (if_neg (dec j k) p) (get-put_self k v m))
  ]

  pub get-put_ne : (k j : K) (v : V) (m : Map K V) → k ≢ j → get j (put k v m) ≡ get j m
  unfolding get put
  get-put_ne k j v [] h = if_neg (dec k j) h _ _
  get-put_ne k j v ((i, w) ∷ m) h = ground (arith, get-put_ne k j v m h)

  pub get-delete_self : (k : K) (m : Map K V) → get k (delete k m) ≡ none
  unfolding get delete
  get-delete_self k [] = refl
  get-delete_self k ((j, w) ∷ m) = ground (arith, get-delete_self k m)

  pub get-delete_ne : (k j : K) (m : Map K V) → k ≢ j → get j (delete k m) ≡ get j m
  unfolding get delete
  get-delete_ne k j [] h = refl
  get-delete_ne k j ((i, w) ∷ m) h = ground (arith, get-delete_ne k j m h)

  pub get-put :
      (k j : K) (v : V) (m : Map K V) → get j (put k v m) ≡ ite (dec k j) (some v) (get j m)
  get-put k j v m = elim (dec k j) [
    | yes p ↦ rw (if_pos (dec k j) p) (rw (← p) (get-put_self k v m))
    | no p ↦ rw (if_neg (dec k j) p) (get-put_ne k j v m p)
  ]

  pub get-put_at : (k j : K) (v : V) (m : Map K V) → k ≡ j → get j (put k v m) ≡ some v
  get-put_at k j v m p = get-put k j v m ∙ if_pos (dec k j) p _ _

  pub get-delete : (k j : K) (m : Map K V) → get j (delete k m) ≡ ite (dec k j) none (get j m)
  get-delete k j m = elim (dec k j) [
    | yes p ↦ rw (if_pos (dec k j) p) (rw (← p) (get-delete_self k m))
    | no p ↦ rw (if_neg (dec k j) p) (get-delete_ne k j m p)
  ]

  pub get-delete_at : (k j : K) (m : Map K V) → k ≡ j → get j (delete k m) ≡ none
  get-delete_at k j m p = get-delete k j m ∙ if_pos (dec k j) p _ _

  pub length-put_new :
      (k : K) (v : V) (m : Map K V) → get k m ≡ none → length (put k v m) ≡ length m + 1
  unfolding get put
  length-put_new k v [] h = omega arith
  length-put_new k v ((j, w) ∷ m) h = elim (dec j k) [
    | yes p ↦ absurd (none-ne-some (sym h ∙ if_pos (dec j k) p _ _))
    | no p ↦
        rw (if_neg (dec j k) p)
          (omega (arith, length-put_new k v m (sym (if_neg (dec j k) p _ _) ∙ h)))
  ]
    where
      none-ne-some : {a : V} → ◌≡◌ {A = Option V} none (some a) → ⊥
      none-ne-some e = cc

  pub All-put {κ} :
      (P : K × V → Type κ) (k : K) (v : V) (m : Map K V) → P (k, v) → All P m → All P (put k v m)
  unfolding put
  All-put P k v [] p a = (p, a)
  All-put P k v ((j, w) ∷ m) p a = elim (dec j k) [
    | yes e ↦ rw (if_pos (dec j k) e) (p, a.1)
    | no n ↦ rw (if_neg (dec j k) n) (a.0, All-put P k v m p a.1)
  ]

  pub All-delete {κ} : (P : K × V → Type κ) (k : K) (m : Map K V) → All P m → All P (delete k m)
  unfolding delete
  All-delete P k [] a = a
  All-delete P k ((j, w) ∷ m) a = elim (dec j k) [
    | yes e ↦ rw (if_pos (dec j k) e) (All-delete P k m a.1)
    | no n ↦ rw (if_neg (dec j k) n) (a.0, All-delete P k m a.1)
  ]

  pub All-get {κ} :
      (P : K × V → Type κ) (k : K) (m : Map K V) {v : V}
      → get k m ≡ some v
      → All P m
      → (j : K) × P (j, v)
  unfolding get
  All-get P k [] g a = absurd (none-ne-some g)
    where
      none-ne-some : {a : V} → ◌≡◌ {A = Option V} none (some a) → ⊥
      none-ne-some e = cc
  All-get P k ((j, w) ∷ m) g a = elim (dec j k) [
    | yes e ↦ (j, subst (λ x. P (j, x)) (inj (sym (if_pos (dec j k) e _ _) ∙ g)) a.0)
    | no n ↦ All-get P k m (sym (if_neg (dec j k) n _ _) ∙ g) a.1
  ]
    where
      inj : {a b : V} → some a ≡ some b → a ≡ b
      inj q = cc
