-- ===== src/Util/MultiLocker/Invariant.antt =====
-- util/multi_locker.go against a read/write lock for each key.
use fnd.Base.{
  ℕ, suc, zero, ◌+◌, ◌-◌, ◌≡◌, ◌≢◌, inl, inr, refl, ◌∙◌, Option, none, some, Bool, true, false,
  arith, ltb, ◌==◌, Option-cases,
}
use fnd.Base.GoMap.{Map, get, put, delete, get-put_self, get-put_ne, get-delete_self, get-delete_ne}
use fnd.Util.MultiLocker.{
  RefCounter, Ran, returns, panics, get_locker, try_lock, try_rlock, unlock, runlock,
}

-- A read/write lock as its clients see it. `broken` is a reader beside a writer, or two writers.
pub data Mode : Type 0 where
  free : Mode
  read_by : ℕ → Mode
  written : Mode
  broken : Mode

abbrev pub mode_of_counts : ℕ → ℕ → Mode
mode_of_counts zero zero = free
mode_of_counts (suc n) zero = read_by (suc n)
mode_of_counts zero (suc zero) = written
mode_of_counts zero (suc (suc n)) = broken
mode_of_counts (suc n) (suc k) = broken

abbrev pub mode_of_entry : Option RefCounter → Mode
mode_of_entry none = free
mode_of_entry (some c) = mode_of_counts c.readers c.writers

pub data Act : Type 0 where
  lock rlock unlocks runlocks : Act

-- The reference lock: the next mode and the answer, or nothing where the caller broke the protocol.
unfoldable pub lock_spec : Act → Mode → Option (Mode × Bool)
lock_spec lock free = some (written, true)
lock_spec lock s = some (s, false)
lock_spec rlock free = some (read_by 1, true)
lock_spec rlock (read_by n) = some (read_by (suc n), true)
lock_spec rlock s = some (s, false)
lock_spec unlocks written = some (free, true)
lock_spec unlocks s = none
lock_spec runlocks (read_by zero) = none
lock_spec runlocks (read_by (suc zero)) = some (free, true)
lock_spec runlocks (read_by (suc (suc n))) = some (read_by (suc n), true)
lock_spec runlocks s = none

module _ {K : Type 0} where
  abbrev pub done : Ran K (Unit {0}) → Ran K Bool
  done (returns m _) = returns m true
  done panics = panics

module _ {K : Type 0} (dec : Discrete K) where
  abbrev pub mode : Map K RefCounter → K → Mode
  mode m k = mode_of_entry (get dec k m)

  -- One call of a method of the interface.
  unfoldable pub call : Act → K → Map K RefCounter → Ran K Bool
  call lock k m = try_lock dec k m
  call rlock k m = try_rlock dec k m
  call unlocks k m = done (unlock dec k m)
  call runlocks k m = done (runlock dec k m)

  -- The call answers as the reference lock does, panics where it has no step, and leaves the
  -- other keys alone.
  abbrev pub Refines : Act → K → Map K RefCounter → Ran K Bool → Type 0
  Refines a k m (returns m' b) =
      (lock_spec a (mode m k) ≡ some (mode m' k, b))
      × ((j : K) → k ≢ j → get dec j m' ≡ get dec j m)
  Refines a k m panics = lock_spec a (mode m k) ≡ none

  put-keeps :
      (k : K) (c : RefCounter) (m : Map K RefCounter) (j : K)
      → k ≢ j
      → get dec j (put dec k c m) ≡ get dec j m
  put-keeps k c m j h = get-put_ne dec k j c m h

  put_twice-keeps :
      (k : K) (c d : RefCounter) (m : Map K RefCounter) (j : K)
      → k ≢ j
      → get dec j (put dec k c (put dec k d m)) ≡ get dec j m
  put_twice-keeps k c d m j h = put-keeps k c (put dec k d m) j h ∙ put-keeps k d m j h

  delete-keeps :
      (k : K) (m : Map K RefCounter) (j : K) → k ≢ j → get dec j (delete dec k m) ≡ get dec j m
  delete-keeps k m j h = get-delete_ne dec k j m h

  positive : (n : ℕ) → ltb 0 (suc n) ≡ true
  positive n = ground arith

  suc-ne : (n : ℕ) → (suc n == 0) ≡ false
  suc-ne n = ground arith

  suc-ge : (n : ℕ) → ltb (suc n) 1 ≡ false
  suc-ge n = ground arith

  suc-pred : (n : ℕ) → suc n - 1 ≡ n
  suc-pred n = omega arith

  suc-next : (n : ℕ) → n + 1 ≡ suc n
  suc-next n = omega arith

  call-Refines_new :
      (a : Act) (k : K) (m : Map K RefCounter) → get dec k m ≡ none → Refines a k m (call a k m)
  unfolding call lock_spec try_lock try_rlock unlock runlock
  call-Refines_new lock k m e =
      rw (e, get_locker) (rw (e, get-put_self) (refl, put_twice-keeps k _ _ m))
  call-Refines_new rlock k m e =
      rw (e, get_locker) (rw (e, get-put_self) (refl, put_twice-keeps k _ _ m))
  call-Refines_new unlocks k m e = rw (e, get_locker) (rw e refl)
  call-Refines_new runlocks k m e = rw (e, get_locker) (rw e refl)

  call-Refines_old :
      (a : Act) (k : K) (m : Map K RefCounter) (r w : ℕ)
      → get dec k m ≡ some (record { readers = r; writers = w })
      → mode_of_counts r w ≢ broken
      → Refines a k m (call a k m)
  unfolding call lock_spec try_lock try_rlock unlock runlock
  call-Refines_old a k m (suc r) (suc w) e h = absurd (h refl)
  call-Refines_old a k m zero (suc (suc w)) e h = absurd (h refl)
  call-Refines_old lock k m zero zero e h =
      rw (e, get_locker) (rw (e, get-put_self) (refl, put-keeps k _ m))
  call-Refines_old lock k m zero (suc zero) e h = rw (e, get_locker) (rw e (refl, λ j ne. refl))
  call-Refines_old lock k m (suc r) zero e h =
      rw (e, get_locker) (rw (positive r) (rw e (refl, λ j ne. refl)))
  call-Refines_old rlock k m zero zero e h =
      rw (e, get_locker) (rw (e, get-put_self) (refl, put-keeps k _ m))
  call-Refines_old rlock k m zero (suc zero) e h = rw (e, get_locker) (rw e (refl, λ j ne. refl))
  call-Refines_old rlock k m (suc r) zero e h =
      rw (e, get_locker) (rw (suc-next (suc r)) (rw (e, get-put_self) (refl, put-keeps k _ m)))
  call-Refines_old unlocks k m zero zero e h = rw (e, get_locker) (rw e refl)
  call-Refines_old unlocks k m zero (suc zero) e h =
      rw (e, get_locker) (rw (e, get-delete_self) (refl, delete-keeps k m))
  call-Refines_old unlocks k m (suc r) zero e h = rw (e, get_locker) (rw e refl)
  call-Refines_old runlocks k m zero zero e h = rw (e, get_locker) (rw e refl)
  call-Refines_old runlocks k m zero (suc zero) e h = rw (e, get_locker) (rw e refl)
  call-Refines_old runlocks k m (suc zero) zero e h =
      rw (e, get_locker) (rw (e, get-delete_self) (refl, delete-keeps k m))
  call-Refines_old runlocks k m (suc (suc r)) zero e h =
      rw (e, get_locker)
        (rw (suc-ge (suc r), suc-pred (suc r))
          (rw (suc-ne r) (rw (e, get-put_self) (refl, put-keeps k _ m))))

  -- Every call of a method on a key whose lock is not broken answers as the reference lock does,
  -- panics exactly where the reference lock has no step, and leaves every other key's counter
  -- alone.
  pub call-Refines :
      (a : Act) (k : K) (m : Map K RefCounter) → mode m k ≢ broken → Refines a k m (call a k m)
  call-Refines a k m h = elim (Option-cases (get dec k m)) [
    | inl e ↦ call-Refines_new a k m e
    | inr (c, e) ↦ call-Refines_old a k m c.readers c.writers e (rw e at h)
  ]
