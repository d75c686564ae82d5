-- ===== src/Util/MultiLocker.antt =====
-- util/multi_locker.go: read/write locks by key. Go's mutex makes each method one atomic step, so a
-- method is a function on the map `in_use`. A counter stays below the number of goroutines, so the
-- int64 fields are plain numbers.
pub mod Invariant
pub mod Schedule
use fnd.Base.{
  ℕ, ◌+◌, ◌-◌, List, [], ◌∷◌, Option, none, some, Bool, true, false, ◌||◌, ltb, ◌==◌, not,
  if◌then◌else◌,
}
use fnd.Base.GoMap.{Map, get, put, delete}

pub record RefCounter : Type 0 where
  pub readers : ℕ
  pub writers : ℕ

-- A method that returns leaves a new map and a result; the others panic.
pub data Ran (K A : Type 0) : Type 0 where
  returns : Map K RefCounter → A → Ran K A
  panics : Ran K A

module _ {K : Type 0} (dec : Discrete K) where
  abbrev zero_counter : RefCounter
  zero_counter = record { readers = 0; writers = 0 }

  -- `getLocker`: the counter, which is put into the map if it is not there.
  unfoldable pub get_locker : K → Map K RefCounter → RefCounter × Map K RefCounter
  get_locker key in_use = elim (get dec key in_use) [
    | none ↦ (
      record { readers = 0; writers = 0 },
      put dec key (record { readers = 0; writers = 0 }) in_use,
    )
    | some res ↦ (res, in_use)
  ]

  -- `TryLock`
  unfoldable pub try_lock : K → Map K RefCounter → Ran K Bool
  unfolding get_locker
  try_lock key in_use =
      let (m, in_use') = get_locker key in_use in
      if ltb 0 m.readers || ltb 0 m.writers
      then returns in_use' false
      else returns (put dec key (record m { writers = m.writers + 1 }) in_use') true

  -- `TryRLock`
  unfoldable pub try_rlock : K → Map K RefCounter → Ran K Bool
  unfolding get_locker
  try_rlock key in_use =
      let (m, in_use') = get_locker key in_use in
      if ltb 0 m.writers
      then returns in_use' false
      else returns (put dec key (record m { readers = m.readers + 1 }) in_use') true

  -- `Unlock`
  unfoldable pub unlock : K → Map K RefCounter → Ran K (Unit {0})
  unfolding get_locker
  unlock key in_use =
      let (m, in_use') = get_locker key in_use in
      if not (m.writers == 1)
      then panics
      else (if m.writers - 1 == 0
          then returns (delete dec key in_use') tt
          else returns (put dec key (record m { writers = m.writers - 1 }) in_use') tt)

  -- `RUnlock`
  unfoldable pub runlock : K → Map K RefCounter → Ran K (Unit {0})
  unfolding get_locker
  runlock key in_use =
      let (m, in_use') = get_locker key in_use in
      if ltb m.readers 1
      then panics
      else (if m.readers - 1 == 0
          then returns (delete dec key in_use') tt
          else returns (put dec key (record m { readers = m.readers - 1 }) in_use') tt)
