-- ===== src/Shm.antt =====
-- linux/utils/src/shm_mutex.c and linux/utils/src/shm_rw_lock.c: locks in a mapped file, in the build
-- with USE_SHMAT 0 and without _ANDROID_. What mmapfile returns is an argument: the contents of the
-- file, with `none` for NULL. The calls of pthreads are the fields of `Mutex` and `Rwlock`; counts are
-- exact.
pub mod Users
mod Tests
use general_purpose_library.Prelude.{
  ℕ, Bool, true, false, Option, none, some, List, ◌==◌, if◌then◌else◌, ℤ, pos, negsuc, ◌+ℤ◌, ◌-ℤ◌,
  eqb_ℤ,
}

-- SHM_MUTEX_MAGIC
abbrev pub shm_mutex_magic : ℕ
shm_mutex_magic = 1520778435

pub record Mutex {ℓ} (M : Type ℓ) : Type ℓ where
  pub owner_dead : ℤ
  pub init : M
  pub lock : M → ℤ × M
  pub make_consistent : M → ℤ × M
  pub unlock : M → M

-- shm_mutex_t
pub record ShmMutex {ℓ} (M : Type ℓ) : Type ℓ where
  pub magic : ℕ
  pub ref_count : ℤ
  pub lock_count : ℤ
  pub mutex : M

module _ {ℓ} {M : Type ℓ} (pthread : Mutex M) where
  abbrev pub fresh_mutex : ShmMutex M
  fresh_mutex = record {
    magic = shm_mutex_magic;
    ref_count = pos 0;
    lock_count = pos 0;
    mutex = pthread.init;
  }

  abbrev pub use_mutex : ShmMutex M → ShmMutex M
  use_mutex shm = record shm { ref_count = shm.ref_count +ℤ pos 1 }

  pub shm_mutex_alloc : Option (List ℕ) → (mapped : Option (ShmMutex M)) → Option (ShmMutex M)
  shm_mutex_alloc none mapped = none
  shm_mutex_alloc (some key) none = none
  shm_mutex_alloc (some key) (some shm) =
      some (use_mutex (if shm.magic == shm_mutex_magic then shm else fresh_mutex))

  unfoldable pub shm_mutex_destroy : Option (ShmMutex M) → ℤ × Option (ShmMutex M)
  shm_mutex_destroy none = (negsuc 0, none)
  shm_mutex_destroy (some shm) = (pos 0, some (record shm { ref_count = shm.ref_count -ℤ pos 1 }))

  -- Line 137 to 144, with what pthread_mutex_consistent returned
  abbrev pub healed : ShmMutex M → ℤ × M → ℤ × ShmMutex M
  healed shm (status, mutex) = elim (eqb_ℤ (pos 0) status) [
    | false ↦ (negsuc 0, record shm { mutex = mutex })
    | true ↦ (pos 0, record shm { mutex = mutex; ref_count = shm.ref_count -ℤ pos 1 })
  ]

  -- Line 132 to 144, with what pthread_mutex_lock returned
  abbrev pub recover : ℤ → ShmMutex M → ℤ × ShmMutex M
  recover ret shm = elim (eqb_ℤ pthread.owner_dead ret) [
    | false ↦ (negsuc 0, shm)
    | true ↦ healed shm (pthread.make_consistent shm.mutex)
  ]

  abbrev pub after_lock : ShmMutex M → ℤ × M → ℤ × ShmMutex M
  after_lock shm (ret, mutex) = elim (eqb_ℤ (pos 0) ret) [
    | true ↦ (pos 0, record shm { mutex = mutex; lock_count = shm.lock_count +ℤ pos 1 })
    | false ↦ recover ret (record shm { mutex = mutex })
  ]

  pub shm_mutex_lock : ShmMutex M → ℤ × ShmMutex M
  shm_mutex_lock shm = after_lock shm (pthread.lock shm.mutex)

  pub shm_mutex_unlock : ShmMutex M → ℤ × ShmMutex M
  shm_mutex_unlock shm =
      (pos 0, record shm { lock_count = shm.lock_count -ℤ pos 1; mutex = pthread.unlock shm.mutex })

pub record Rwlock {ℓ} (L : Type ℓ) : Type ℓ where
  pub init : L
  pub destroy : L → L
  pub write_lock : L → ℤ × L
  pub read_lock : L → ℤ × L
  pub unlock : L → ℤ × L

-- shm_rwlock_t; lock_count is only printed
pub record ShmRwlock {ℓ} (L : Type ℓ) : Type ℓ where
  pub magic : ℕ
  pub ref_count : ℤ
  pub rw_lock : L

module _ {ℓ} {L : Type ℓ} (pthread : Rwlock L) where
  abbrev pub fresh_rwlock : ShmRwlock L
  fresh_rwlock = record { magic = shm_mutex_magic; ref_count = pos 1; rw_lock = pthread.init }

  pub shm_rwlock_alloc : Option (List ℕ) → (mapped : Option (ShmRwlock L)) → Option (ShmRwlock L)
  shm_rwlock_alloc none mapped = none
  shm_rwlock_alloc (some key) none = none
  shm_rwlock_alloc (some key) (some shm) =
      some (if shm.magic == shm_mutex_magic then shm else fresh_rwlock)

  pub shm_rwlock_destroy : ShmRwlock L → ℤ × ShmRwlock L
  shm_rwlock_destroy shm = (
    pos 0,
    record shm { ref_count = shm.ref_count -ℤ pos 1; rw_lock = pthread.destroy shm.rw_lock },
  )

  abbrev pub taken : ShmRwlock L → ℤ × L → ℤ × ShmRwlock L
  taken shm (ret, rw_lock) =
      (ret, record shm { ref_count = shm.ref_count +ℤ pos 1; rw_lock = rw_lock })

  unfoldable pub shm_rwlock_wrlock : ShmRwlock L → ℤ × ShmRwlock L
  shm_rwlock_wrlock shm = taken shm (pthread.write_lock shm.rw_lock)

  unfoldable pub shm_rwlock_rdlock : ShmRwlock L → ℤ × ShmRwlock L
  shm_rwlock_rdlock shm = taken shm (pthread.read_lock shm.rw_lock)

  unfoldable pub shm_rwlock_unlock : ShmRwlock L → ℤ × ShmRwlock L
  shm_rwlock_unlock shm =
      let (ret, rw_lock) = pthread.unlock shm.rw_lock in
      (ret, record shm { ref_count = shm.ref_count -ℤ pos 1; rw_lock = rw_lock })
