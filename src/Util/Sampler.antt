-- ===== src/Util/Sampler.antt =====
-- util/sampler.go. What rand.Intn answers at its n-th call is the function `rand`; its
-- documentation says that the answer is below the argument.
use fnd.Base.{
  ℕ, zero, suc, ◌+◌, ◌≤◌, ◌<◌, ◌≡◌, sym, ap, ◌∙◌, Bool, true, false, Option, none, some, List, [],
  ◌∷◌, ◌++◌, arith, Outcome, ok, err, panicked, if◌then◌else◌, ltb, ltb-false, length,
  length-append, NotIn, NotIn-append, Distinct, Distinct-snoc, All, Bool-cases, inl, inr,
  ℕ_discrete,
}
use fnd.Base.GoMap.{Map, get, put, get-put_at, get-put_ne}

pub data NoError : Type 0 where

abbrev pub is_set : Option Bool → Bool
is_set none = false
is_set (some b) = b

-- The inner loop: at most a hundred draws for one index, and the position after them.
unfoldable pub draw : (ℕ → ℕ) → ℕ → Map ℕ Bool → ℕ → Outcome NoError (ℕ × ℕ)
draw rand zero used pos = panicked
draw rand (suc tries) used pos =
    let rest = draw rand tries used (pos + 1) in
    if is_set (get ℕ_discrete (rand pos) used) then rest else ok (rand pos, pos + 1)

abbrev pub with_draw :
    Outcome NoError (ℕ × ℕ) → (ℕ → ℕ → Outcome NoError (List ℕ)) → Outcome NoError (List ℕ)
with_draw (ok (j, pos)) f = f j pos
with_draw (err e) f = err e
with_draw panicked f = panicked

-- The outer loop, for the indices that are missing.
unfoldable pub sample_loop : (ℕ → ℕ) → ℕ → Map ℕ Bool → List ℕ → ℕ → Outcome NoError (List ℕ)
sample_loop rand zero used out pos = ok out
sample_loop rand (suc missing) used out pos =
    with_draw (draw rand 100 used pos)
      (λ j pos'. sample_loop rand missing (put ℕ_discrete j true used) (out ++ (j ∷ [])) pos')

unfoldable pub range_from : ℕ → ℕ → List ℕ
range_from i zero = []
range_from i (suc n) = i ∷ range_from (i + 1) n

-- `SampleIndices`
unfoldable pub sample_indices : (ℕ → ℕ) → ℕ → ℕ → Outcome NoError (List ℕ)
sample_indices rand zero count = ok []
sample_indices rand (suc n) count =
    if ltb (suc n) count then ok (range_from 0 (suc n)) else sample_loop rand count [] [] 0

-- What a sample is: so many distinct indices below a bound.
pub record IsSample (bound count : ℕ) (out : List ℕ) : Type 0 where
  pub sized : length out ≡ count
  pub distinct : Distinct out
  pub below : All (λ j. j < bound) out

abbrev pub Answers : (List ℕ → Type 0) → Outcome NoError (List ℕ) → Type 0
Answers Q (ok out) = Q out
Answers Q (err e) = ⊥
Answers Q panicked = Unit {0}

module _ (rand : ℕ → ℕ) (bound : ℕ) (fair : (n : ℕ) → rand n < bound) where
  -- An index that was drawn is below the bound and was not used.
  abbrev Draws : Map ℕ Bool → Outcome NoError (ℕ × ℕ) → Type 0
  Draws used (ok (j, pos)) = (j < bound) × (is_set (get ℕ_discrete j used) ≡ false)
  Draws used (err e) = ⊥
  Draws used panicked = Unit {0}

  draw-Draws : (tries : ℕ) (used : Map ℕ Bool) (pos : ℕ) → Draws used (draw rand tries used pos)
  unfolding draw
  draw-Draws zero used pos = tt
  draw-Draws (suc tries) used pos = elim (Bool-cases (is_set (get ℕ_discrete (rand pos) used))) [
    | inl y ↦ rw y (draw-Draws tries used (pos + 1))
    | inr n ↦ rw n (fair pos, n)
  ]

  All-snoc :
      (out : List ℕ) (j : ℕ)
      → All (λ k. k < bound) out
      → j < bound
      → All (λ k. k < bound) (out ++ (j ∷ []))
  All-snoc [] j a h = (h, tt)
  All-snoc (x ∷ out) j a h = (a.0, All-snoc out j a.1 h)

  -- The map holds what was put out.
  abbrev Covers : Map ℕ Bool → List ℕ → Type 0
  Covers used out = (j : ℕ) → is_set (get ℕ_discrete j used) ≡ false → NotIn j out

  Covers-put :
      (j : ℕ) (used : Map ℕ Bool) (out : List ℕ)
      → Covers used out
      → Covers (put ℕ_discrete j true used) (out ++ (j ∷ []))
  Covers-put j used out c k e = elim (ℕ_discrete j k) [
    | yes p ↦ absurd (true-ne-false (sym (ap is_set (get-put_at ℕ_discrete j k true used p)) ∙ e))
    | no n ↦
        NotIn-append k out (j ∷ [])
          (c k (sym (ap is_set (get-put_ne ℕ_discrete j k true used n)) ∙ e)) (n, tt)
  ]
    where
      true-ne-false : ◌≡◌ {A = Bool} true false → ⊥
      true-ne-false q = cc

  sample_loop-IsSample :
      (missing : ℕ) (used : Map ℕ Bool) (out : List ℕ) (pos count : ℕ)
      → length out + missing ≡ count
      → Distinct out
      → All (λ j. j < bound) out
      → Covers used out
      → Answers (IsSample bound count) (sample_loop rand missing used out pos)
  unfolding sample_loop
  sample_loop-IsSample zero used out pos count l d a c = record {
    sized = omega (arith, l);
    distinct = d;
    below = a;
  }
  sample_loop-IsSample (suc missing) used out pos count l d a c =
      drawn (draw rand 100 used pos) (draw-Draws 100 used pos) (λ j pos' h n.
        sample_loop-IsSample missing (put ℕ_discrete j true used) (out ++ (j ∷ [])) pos' count
          (omega (arith, length-append out (j ∷ []), l)) (Distinct-snoc out j (c j n) d)
          (All-snoc out j a h) (Covers-put j used out c))
    where
      drawn :
          (r : Outcome NoError (ℕ × ℕ))
          → Draws used r
          → ((j pos' : ℕ)
              → j < bound
              → is_set (get ℕ_discrete j used) ≡ false
              → Answers
                  (IsSample bound count)
                  (sample_loop rand missing (put ℕ_discrete j true used) (out ++ (j ∷ [])) pos'))
          → Answers (IsSample bound count) (
              with_draw r (λ j pos'.
                sample_loop rand missing (put ℕ_discrete j true used) (out ++ (j ∷ [])) pos'))
      drawn (ok (j, pos')) h f = f j pos' h.0 h.1
      drawn (err e) h f = h
      drawn panicked h f = tt

-- SampleIndices of a number of indices that the slice has, with draws below the length, answers
-- that many indices, all different and below the length, or panics; it never fails otherwise.
pub sample_indices-IsSample :
    (rand : ℕ → ℕ) (bound count : ℕ)
    → ((n : ℕ) → rand n < bound)
    → count ≤ bound
    → 0 < bound
    → Answers (IsSample bound count) (sample_indices rand bound count)
unfolding sample_indices
sample_indices-IsSample rand zero count fair h p = absurd (omega (arith, p))
sample_indices-IsSample rand (suc n) count fair h p =
    rw (ltb-false (suc n) count h)
      (sample_loop-IsSample rand (suc n) fair count [] [] 0 count (omega arith) tt tt (λ j e. tt))
