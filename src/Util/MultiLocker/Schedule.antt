-- ===== src/Util/MultiLocker/Schedule.antt =====
-- Goroutines that share the locks of util/multi_locker.go: any interleaving of calls in which a
-- goroutine unlocks only what it holds. `readers` and `writers` count the holders of a key.
use fnd.Base.{
  ℕ, suc, zero, ◌-◌, ◌<◌, ◌≡◌, ◌≢◌, refl, some, none, Bool, true, false, arith, ite, if_pos, subst,
  [], if_neg,
}
use fnd.Base.GoMap.{Map, get}
use fnd.Util.MultiLocker.{RefCounter, returns, panics}
use fnd.Util.MultiLocker.Invariant.{
  Act, lock, rlock, unlocks, runlocks, Mode, broken, mode, mode_of_counts, lock_spec, call, Refines,
  call-Refines,
}

pred_suc : (n : ℕ) → suc n - 1 ≡ n
pred_suc n = omega arith

pub record World (K : Type 0) : Type 0 where
  pub locks : Map K RefCounter
  pub readers : K → ℕ
  pub writers : K → ℕ

module _ {K : Type 0} (dec : Discrete K) where
  unfoldable pub one_more : K → (K → ℕ) → K → ℕ
  one_more k f j = ite (dec k j) (suc (f j)) (f j)

  unfoldable pub one_less : K → (K → ℕ) → K → ℕ
  one_less k f j = ite (dec k j) (f j - 1) (f j)

  pub data Step : World K → World K → Type 0 where
    locked :
        (w : World K) (k : K) (m : Map K RefCounter)
        → call dec lock k w.locks ≡ returns m true
        → Step w (record { locks = m; readers = w.readers; writers = one_more k w.writers })
    rlocked :
        (w : World K) (k : K) (m : Map K RefCounter)
        → call dec rlock k w.locks ≡ returns m true
        → Step w (record { locks = m; readers = one_more k w.readers; writers = w.writers })
    refused :
        (w : World K) (a : Act) (k : K) (m : Map K RefCounter)
        → call dec a k w.locks ≡ returns m false
        → Step w (record { locks = m; readers = w.readers; writers = w.writers })
    unlocked :
        (w : World K) (k : K) (m : Map K RefCounter)
        → 0 < w.writers k
        → call dec unlocks k w.locks ≡ returns m true
        → Step w (record { locks = m; readers = w.readers; writers = one_less k w.writers })
    runlocked :
        (w : World K) (k : K) (m : Map K RefCounter)
        → 0 < w.readers k
        → call dec runlocks k w.locks ≡ returns m true
        → Step w (record { locks = m; readers = one_less k w.readers; writers = w.writers })

  pub data Reach (s : World K) : World K → Type 0 where
    here : Reach s s
    next : {t u : World K} → Reach s t → Step t u → Reach s u

  unfoldable pub start : World K
  start = record { locks = []; readers = λ k. 0; writers = λ k. 0 }

  pub record Inv (w : World K) : Type 0 where
    pub counted : (k : K) → mode dec w.locks k ≡ mode_of_counts (w.readers k) (w.writers k)
    pub sound : (k : K) → mode_of_counts (w.readers k) (w.writers k) ≢ broken

  Inv-start : Inv start
  unfolding start get
  Inv-start = record { counted = λ k. refl; sound = λ k e. cc }

  -- What a step of the reference lock has to say of the counts of holders.
  abbrev Counts : Act → Bool → ℕ → ℕ → ℕ → ℕ → Type 0
  Counts a b r w r' w' =
      (s : Mode)
      → lock_spec a (mode_of_counts r w) ≡ some (s, b)
      → (s ≡ mode_of_counts r' w') × (mode_of_counts r' w' ≢ broken)

  lock-Counts : (r w : ℕ) → mode_of_counts r w ≢ broken → Counts lock true r w r (suc w)
  unfolding lock_spec
  lock-Counts zero zero h s e = (cc, λ x. cc)
  lock-Counts zero (suc zero) h s e = (cc, λ x. cc)
  lock-Counts zero (suc (suc w)) h s e = absurd (h refl)
  lock-Counts (suc r) zero h s e = (cc, λ x. cc)
  lock-Counts (suc r) (suc w) h s e = absurd (h refl)

  rlock-Counts : (r w : ℕ) → mode_of_counts r w ≢ broken → Counts rlock true r w (suc r) w
  unfolding lock_spec
  rlock-Counts zero zero h s e = (cc, λ x. cc)
  rlock-Counts zero (suc zero) h s e = (cc, λ x. cc)
  rlock-Counts zero (suc (suc w)) h s e = absurd (h refl)
  rlock-Counts (suc r) zero h s e = (cc, λ x. cc)
  rlock-Counts (suc r) (suc w) h s e = absurd (h refl)

  refused-Counts : (a : Act) (r w : ℕ) → mode_of_counts r w ≢ broken → Counts a false r w r w
  unfolding lock_spec
  refused-Counts a (suc r) (suc w) h s e = absurd (h refl)
  refused-Counts a zero (suc (suc w)) h s e = absurd (h refl)
  refused-Counts lock zero zero h s e = (cc, h)
  refused-Counts lock zero (suc zero) h s e = (cc, h)
  refused-Counts lock (suc r) zero h s e = (cc, h)
  refused-Counts rlock zero zero h s e = (cc, h)
  refused-Counts rlock zero (suc zero) h s e = (cc, h)
  refused-Counts rlock (suc r) zero h s e = (cc, h)
  refused-Counts unlocks zero zero h s e = (cc, h)
  refused-Counts unlocks zero (suc zero) h s e = (cc, h)
  refused-Counts unlocks (suc r) zero h s e = (cc, h)
  refused-Counts runlocks zero zero h s e = (cc, h)
  refused-Counts runlocks zero (suc zero) h s e = (cc, h)
  refused-Counts runlocks (suc zero) zero h s e = (cc, h)
  refused-Counts runlocks (suc (suc r)) zero h s e = (cc, h)

  unlock-Counts :
      (r w : ℕ) → mode_of_counts r w ≢ broken → 0 < w → Counts unlocks true r w r (w - 1)
  unfolding lock_spec
  unlock-Counts r zero h p s e = elim p [ ]
  unlock-Counts zero (suc zero) h p s e = (cc, λ x. cc)
  unlock-Counts zero (suc (suc w)) h p s e = absurd (h refl)
  unlock-Counts (suc r) (suc w) h p s e = absurd (h refl)

  runlock-Counts :
      (r w : ℕ) → mode_of_counts r w ≢ broken → 0 < r → Counts runlocks true r w (r - 1) w
  unfolding lock_spec
  runlock-Counts zero w h p s e = elim p [ ]
  runlock-Counts (suc zero) zero h p s e = (cc, λ x. cc)
  runlock-Counts (suc (suc r)) zero h p s e = rw (pred_suc (suc r)) (cc, λ x. cc)
  runlock-Counts (suc r) (suc w) h p s e = absurd (h refl)

  record Kept (k : K) (f g : K → ℕ) : Type 0 where
    others : (j : K) → k ≢ j → g j ≡ f j

  one_more_self : (k : K) (f : K → ℕ) → one_more k f k ≡ suc (f k)
  unfolding one_more
  one_more_self k f = if_pos (dec k k) refl _ _

  one_less_self : (k : K) (f : K → ℕ) → one_less k f k ≡ f k - 1
  unfolding one_less
  one_less_self k f = if_pos (dec k k) refl _ _

  one_more-Kept : (k : K) (f : K → ℕ) → Kept k f (one_more k f)
  unfolding one_more
  one_more-Kept k f = record { others = λ j h. if_neg (dec k j) h _ _ }

  one_less-Kept : (k : K) (f : K → ℕ) → Kept k f (one_less k f)
  unfolding one_less
  one_less-Kept k f = record { others = λ j h. if_neg (dec k j) h _ _ }

  same-Kept : (k : K) (f : K → ℕ) → Kept k f f
  same-Kept k f = record { others = λ j h. refl }

  -- A call changes one key, by what its reference step says.
  call-Inv :
      (a : Act) (b : Bool) (w : World K) (k : K) (m : Map K RefCounter) (r' w' : K → ℕ)
      → Inv w
      → call dec a k w.locks ≡ returns m b
      → Kept k w.readers r'
      → Kept k w.writers w'
      → Counts a b (w.readers k) (w.writers k) (r' k) (w' k)
      → Inv (record { locks = m; readers = r'; writers = w' })
  call-Inv a b w k m r' w' v e kr kw step = record {
    counted = λ j. (at j).0;
    sound = λ j. (at j).1;
  }
    where
      refines : Refines dec a k w.locks (returns m b)
      refines =
          subst (Refines dec a k w.locks) e
            (call-Refines dec a k w.locks (rw (v.counted k) (v.sound k)))

      here_k :
          (mode dec m k ≡ mode_of_counts (r' k) (w' k)) × (mode_of_counts (r' k) (w' k) ≢ broken)
      here_k = step (mode dec m k) (rw (v.counted k) at refines.0)

      at :
          (j : K)
          → (mode dec m j ≡ mode_of_counts (r' j) (w' j)) × (mode_of_counts (r' j) (w' j) ≢ broken)
      at j = elim (dec k j) [
        | yes p ↦
            subst
              (λ i.
                (mode dec m i ≡ mode_of_counts (r' i) (w' i))
                × (mode_of_counts (r' i) (w' i) ≢ broken))
              p here_k
        | no p ↦ rw (refines.1 j p, kr.others j p, kw.others j p) (v.counted j, v.sound j)
      ]

  pub Step-Inv : {w w' : World K} → Step w w' → Inv w → Inv w'
  Step-Inv (locked w k m e) v =
      call-Inv lock true w k m w.readers (one_more k w.writers) v e (same-Kept k w.readers)
        (one_more-Kept k w.writers)
        (rw (one_more_self k w.writers) (lock-Counts (w.readers k) (w.writers k) (v.sound k)))
  Step-Inv (rlocked w k m e) v =
      call-Inv rlock true w k m (one_more k w.readers) w.writers v e (one_more-Kept k w.readers)
        (same-Kept k w.writers)
        (rw (one_more_self k w.readers) (rlock-Counts (w.readers k) (w.writers k) (v.sound k)))
  Step-Inv (refused w a k m e) v =
      call-Inv a false w k m w.readers w.writers v e (same-Kept k w.readers) (same-Kept k w.writers)
        (refused-Counts a (w.readers k) (w.writers k) (v.sound k))
  Step-Inv (unlocked w k m p e) v =
      call-Inv unlocks true w k m w.readers (one_less k w.writers) v e (same-Kept k w.readers)
        (one_less-Kept k w.writers)
        (rw (one_less_self k w.writers) (unlock-Counts (w.readers k) (w.writers k) (v.sound k) p))
  Step-Inv (runlocked w k m p e) v =
      call-Inv runlocks true w k m (one_less k w.readers) w.writers v e (one_less-Kept k w.readers)
        (same-Kept k w.writers)
        (rw (one_less_self k w.readers) (runlock-Counts (w.readers k) (w.writers k) (v.sound k) p))

  pub Reach-Inv : {w : World K} → Reach start w → Inv w
  Reach-Inv here = Inv-start
  Reach-Inv (next r s) = Step-Inv s (Reach-Inv r)

  -- In every interleaving from the empty map: while a goroutine holds the write lock of a key no
  -- other holds that key at all.
  pub Reach-exclusive :
      {w : World K} (k : K)
      → Reach start w
      → 0 < w.writers k
      → (w.writers k ≡ 1) × (w.readers k ≡ 0)
  Reach-exclusive {w} k r h = only (w.readers k) (w.writers k) ((Reach-Inv r).sound k) h
    where
      only : (r w : ℕ) → mode_of_counts r w ≢ broken → 0 < w → (w ≡ 1) × (r ≡ 0)
      only r zero n p = elim p [ ]
      only zero (suc zero) n p = (refl, refl)
      only zero (suc (suc w)) n p = absurd (n refl)
      only (suc r) (suc w) n p = absurd (n refl)

  -- In every interleaving from the empty map no holder's unlock panics, for write and for read
  -- locks.
  pub Reach-unlock :
      {w : World K} (k : K)
      → Reach start w
      → (0 < w.writers k → call dec unlocks k w.locks ≢ panics)
        × (0 < w.readers k → call dec runlocks k w.locks ≢ panics)
  unfolding lock_spec
  Reach-unlock {w} k r = (
    λ h e.
        writes (w.readers k) (w.writers k) (v.sound k) h
          (rw (v.counted k) at (subst (Refines dec unlocks k w.locks) e (fine unlocks))),
    λ h e.
        reads (w.readers k) (w.writers k) (v.sound k) h
          (rw (v.counted k) at (subst (Refines dec runlocks k w.locks) e (fine runlocks))),
  )
    where
      v : Inv w
      v = Reach-Inv r

      fine : (a : Act) → Refines dec a k w.locks (call dec a k w.locks)
      fine a = call-Refines dec a k w.locks (rw (v.counted k) (v.sound k))

      writes :
          (r w : ℕ)
          → mode_of_counts r w ≢ broken
          → 0 < w
          → lock_spec unlocks (mode_of_counts r w) ≢ none
      writes r zero n p e = elim p [ ]
      writes zero (suc zero) n p e = cc
      writes zero (suc (suc w)) n p e = n refl
      writes (suc r) (suc w) n p e = n refl

      reads :
          (r w : ℕ)
          → mode_of_counts r w ≢ broken
          → 0 < r
          → lock_spec runlocks (mode_of_counts r w) ≢ none
      reads zero w n p e = elim p [ ]
      reads (suc zero) zero n p e = cc
      reads (suc (suc r)) zero n p e = cc
      reads (suc r) (suc w) n p e = n refl
