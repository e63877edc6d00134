-- ===== src/Shm/Tests.antt =====
-- A mutex and a lock by numbers, and the theorems on them.
use general_purpose_library.Prelude.{ℕ, zero, suc, ◌≡◌, refl, some, [], ◌∷◌, ℤ, pos, ◌+ℤ◌, ◌-ℤ◌}
use general_purpose_library.Shm.{
  Mutex, ShmMutex, shm_mutex_alloc, shm_mutex_lock, shm_mutex_unlock, Rwlock, ShmRwlock,
}
use general_purpose_library.Shm.Users.{owned, dead_owner_counts}

-- 0 is free, 1 held, and 2 left by a dead owner
abbrev lock_number : ℕ → ℤ × ℕ
lock_number zero = (pos 0, 1)
lock_number (suc m) = (pos 130, 1)

abbrev pthread : Mutex ℕ
pthread = record {
  owner_dead = pos 130;
  init = 0;
  lock = lock_number;
  make_consistent = λ m. (pos 0, m);
  unlock = λ m. 0;
}

abbrev shared : ShmMutex ℕ
shared = record { magic = 1520778435; ref_count = pos 2; lock_count = pos 0; mutex = 0 }

joins :
    shm_mutex_alloc pthread (some (97 ∷ [])) (some shared)
    ≡ some (record shared { ref_count = pos 3 })
unfolding shm_mutex_alloc ◌+ℤ◌
joins = refl

dead_owner_counts_example :
    shm_mutex_unlock pthread (shm_mutex_lock pthread (owned pthread shared 2)).1
    ≡ (pos 0, record shared { mutex = 0; ref_count = pos 2 -ℤ pos 1 })
dead_owner_counts_example = dead_owner_counts pthread shared 1 2 1 1 refl refl refl refl

abbrev numbered : Rwlock ℕ
numbered = record {
  init = 0;
  destroy = λ l. 9;
  write_lock = λ l. (pos 0, 1);
  read_lock = λ l. (pos 0, 2);
  unlock = λ l. (pos 0, 0);
}

abbrev blank : ShmRwlock ℕ
blank = record { magic = 0; ref_count = pos 0; rw_lock = 0 }
