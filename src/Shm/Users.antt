-- ===== src/Shm/Users.antt =====
-- What the counts say after a lock was used, and after one of two processes has gone.
use general_purpose_library.Prelude.{
  ℕ, ◌≡◌, ◌≢◌, refl, ap, ◌∙◌, arith, true, false, some, List, ℤ, pos, ◌+ℤ◌, ◌-ℤ◌, eqb_ℤ, int_laws,
}
use general_purpose_library.Shm.{
  shm_mutex_magic, Mutex, ShmMutex, after_lock, recover, healed, shm_mutex_lock, shm_mutex_unlock,
  Rwlock, ShmRwlock, fresh_rwlock, shm_rwlock_alloc, shm_rwlock_destroy,
}

back_again : (a : ℤ) → a +ℤ pos 1 -ℤ pos 1 ≡ a
back_again a = grind int_laws

same_code : (a : ℤ) → eqb_ℤ a a ≡ true
same_code a = ground arith

module _ {ℓ} {M : Type ℓ} (pthread : Mutex M) where
  locked :
      (shm : ShmMutex M) (held : M)
      → pthread.lock shm.mutex ≡ (pos 0, held)
      → shm_mutex_lock pthread shm
        ≡ (pos 0, record shm { mutex = held; lock_count = shm.lock_count +ℤ pos 1 })
  unfolding shm_mutex_lock
  locked shm held take = ap (after_lock pthread shm) take

  recovered :
      (shm : ShmMutex M) (held again : M)
      → pthread.lock shm.mutex ≡ (pthread.owner_dead, held)
      → eqb_ℤ (pos 0) pthread.owner_dead ≡ false
      → pthread.make_consistent held ≡ (pos 0, again)
      → shm_mutex_lock pthread shm
        ≡ (pos 0, record shm { mutex = again; ref_count = shm.ref_count -ℤ pos 1 })
  unfolding shm_mutex_lock
  recovered shm held again report not_zero heal =
      ap (after_lock pthread shm) report
      ∙ rw (after_lock, not_zero, recover, same_code pthread.owner_dead)
          (ap (healed pthread (record shm { mutex = held })) heal)

  -- shm_mutex_unlock after a shm_mutex_lock that takes the mutex restores every count.
  pub unlock-lock :
      (shm : ShmMutex M) (held : M)
      → pthread.lock shm.mutex ≡ (pos 0, held)
      → shm_mutex_unlock pthread (shm_mutex_lock pthread shm).1
        ≡ (pos 0, record shm { mutex = pthread.unlock held })
  unfolding shm_mutex_unlock
  unlock-lock shm held take =
      ap (λ (r : ℤ × ShmMutex M). shm_mutex_unlock pthread r.1) (locked shm held take)
      ∙ ap (λ (n : ℤ). (pos 0, record shm { lock_count = n; mutex = pthread.unlock held }))
          (back_again shm.lock_count)

  -- A process takes the lock and dies, and another takes it and gives it back.
  abbrev pub owned : ShmMutex M → M → ShmMutex M
  owned shm dead = record (shm_mutex_lock pthread shm).1 { mutex = dead }

  -- When a process has taken the mutex and died, the mutex reports it and pthread_mutex_consistent
  -- succeeds, a lock and an unlock by another process leave lock_count as it was before the first
  -- lock and ref_count one lower.
  pub dead_owner_counts :
      (shm : ShmMutex M) (taken dead held again : M)
      → pthread.lock shm.mutex ≡ (pos 0, taken)
      → pthread.lock dead ≡ (pthread.owner_dead, held)
      → eqb_ℤ (pos 0) pthread.owner_dead ≡ false
      → pthread.make_consistent held ≡ (pos 0, again)
      → shm_mutex_unlock pthread (shm_mutex_lock pthread (owned shm dead)).1
        ≡ (pos 0, record shm { mutex = pthread.unlock again; ref_count = shm.ref_count -ℤ pos 1 })
  unfolding shm_mutex_unlock
  dead_owner_counts shm taken dead held again take report not_zero heal =
      ap (λ (r : ℤ × ShmMutex M). shm_mutex_unlock pthread r.1)
        (recovered (owned shm dead) held again report not_zero heal)
      ∙ ap
          (λ (r : ℤ × ShmMutex M).
            shm_mutex_unlock pthread
              (record r.1 { mutex = again; ref_count = r.1.ref_count -ℤ pos 1 }))
          (locked shm taken take)
      ∙ ap
          (λ (n : ℤ). (
            pos 0,
            record shm {
              lock_count = n;
              mutex = pthread.unlock again;
              ref_count = shm.ref_count -ℤ pos 1;
            },
          ))
          (back_again shm.lock_count)

module _ {ℓ} {L : Type ℓ} (pthread : Rwlock L) where
  -- Where a second process allocates the lock that a first one has initialised, the count of users
  -- stays 1, so the first destroy brings it to 0 and destroys the lock while the other process
  -- still uses it.
  pub rwlock_destroyed_in_use :
      (key : List ℕ) (shm : ShmRwlock L)
      → shm.magic ≢ shm_mutex_magic
      → let first = fresh_rwlock pthread in
        (shm_rwlock_alloc pthread (some key) (some shm) ≡ some first)
        × (shm_rwlock_alloc pthread (some key) (some first) ≡ some first)
        × (shm_rwlock_destroy pthread first
            ≡ (pos 0, record first { ref_count = pos 0; rw_lock = pthread.destroy pthread.init }))
  unfolding shm_rwlock_alloc shm_rwlock_destroy ◌-ℤ◌
  rwlock_destroyed_in_use key shm h = (ground arith, refl, refl)
