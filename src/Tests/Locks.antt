-- ===== src/Tests/Locks.antt =====
-- Runs of util/multi_locker.go, util/cache.go and blob/pool.go.
use fnd.Base.{
  ℕ, ◌≡◌, ◌<◌, refl, sym, ap, arith, [], ◌∷◌, Option, none, some, true, false, ok, ltb,
  if◌then◌else◌, ℕ_discrete,
}
use fnd.Base.GoMap.{Map, get, put}
use fnd.Util.MultiLocker.{RefCounter, returns, panics, get_locker, try_lock, try_rlock}
use fnd.Util.MultiLocker.Invariant.{lock, rlock, unlocks, runlocks, call, Refines, call-Refines}
use fnd.Util.MultiLocker.Schedule
use fnd.Util.MultiLocker.Schedule.{one_more, start, Reach-exclusive, Reach-unlock}
use fnd.Util.Cache.{Entries}
use fnd.Blob.Pool.{Blob, get_blob, put_blob}
use fnd.Blob.Pool.Balance
use fnd.Blob.Pool.Balance.{Reach-in_use, Reach-not_in_use, new_pool, next, gets, puts}

abbrev one_reader : Map ℕ RefCounter
one_reader = (7, record { readers = 1; writers = 0 }) ∷ []

abbrev one_writer : Map ℕ RefCounter
one_writer = (7, record { readers = 0; writers = 1 }) ∷ []

-- A second reader is let in, and a writer is not.
second_reader :
    call ℕ_discrete rlock 7 one_reader
    ≡ returns ((7, record { readers = 2; writers = 0 }) ∷ []) true
unfolding call try_rlock get_locker get put ℕ_discrete
second_reader = refl

no_writer_beside : call ℕ_discrete lock 7 one_reader ≡ returns one_reader false
unfolding call try_lock get_locker get put ℕ_discrete
no_writer_beside = refl

call-Refines_example : Refines ℕ_discrete rlock 7 one_reader (call ℕ_discrete rlock 7 one_reader)
unfolding get ℕ_discrete
call-Refines_example = call-Refines ℕ_discrete rlock 7 one_reader (λ e. cc)

abbrev written_world : Schedule.World ℕ
written_world = record {
  locks = one_writer;
  readers = λ k. 0;
  writers = one_more ℕ_discrete 7 (λ k. 0);
}

written_reached : Schedule.Reach ℕ_discrete (start ℕ_discrete) written_world
unfolding start call try_lock get_locker get put ℕ_discrete
written_reached = Schedule.next Schedule.here (Schedule.locked (start ℕ_discrete) 7 one_writer refl)

written_held : 0 < one_more ℕ_discrete 7 (λ k. 0) 7
unfolding one_more ℕ_discrete
written_held = omega arith

Reach-exclusive_example : (one_more ℕ_discrete 7 (λ k. 0) 7 ≡ 1) × (◌≡◌ {A = ℕ} 0 0)
Reach-exclusive_example =
    Reach-exclusive ℕ_discrete {w = written_world} 7 written_reached written_held

Reach-unlock_example :
    (0 < one_more ℕ_discrete 7 (λ k. 0) 7 → call ℕ_discrete unlocks 7 one_writer ≡ panics → ⊥)
    × (◌<◌ 0 0 → call ℕ_discrete runlocks 7 one_writer ≡ panics → ⊥)
Reach-unlock_example = Reach-unlock ℕ_discrete {w = written_world} 7 written_reached

abbrev blob_7 : Blob ℕ
blob_7 = record { name = 7; handle = 100 }

abbrev empty_world : Balance.World ℕ_discrete
empty_world = record { pool = []; users = λ n. 0 }

abbrev used_world : Balance.World ℕ_discrete
used_world = record {
  pool = (get_blob ℕ_discrete 7 (some blob_7) []).0;
  users = Balance.add_user ℕ_discrete 7 (λ n. 0);
}

abbrev freed_world : Balance.World ℕ_discrete
freed_world = record {
  pool = (put_blob ℕ_discrete blob_7 (get_blob ℕ_discrete 7 (some blob_7) []).0).0;
  users = Balance.drop_user ℕ_discrete 7 (Balance.add_user ℕ_discrete 7 (λ n. 0));
}

some_inj : {a b : Blob ℕ} → some a ≡ some b → a ≡ b
some_inj e = cc

used_reached : Balance.Reach ℕ_discrete used_world
unfolding get_blob get ℕ_discrete
used_reached =
    next empty_world used_world new_pool
      (gets empty_world 7 (some blob_7) blob_7 (λ o e. sym (ap Blob.name (some_inj e))) refl)

freed_reached : Balance.Reach ℕ_discrete freed_world
unfolding ℕ_discrete
freed_reached = next used_world freed_world used_reached (puts used_world blob_7 (omega arith))

Reach-in_use_example :
    (b : Blob ℕ) × (b.name ≡ 7)
    × ((opened : Option (Blob ℕ)) → (get_blob ℕ_discrete 7 opened used_world.pool).1 ≡ ok b)
    × ((put_blob ℕ_discrete b used_world.pool).1
        ≡ ok (if ltb 1 (used_world.users 7) then none else some b))
unfolding ℕ_discrete
Reach-in_use_example = Reach-in_use ℕ_discrete used_world 7 used_reached (omega arith)

abbrev no_entries : Entries ℕ ℕ
no_entries = []
