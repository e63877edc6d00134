-- ===== src/Ipc/Mutex.antt =====
-- ipc_competition/ipc_mutex.c: a robust mutex in shared memory, with the number of its users. The
-- calls of pthreads are the fields of `Robust`; whether shm_open, ftruncate and mmap succeed is an
-- argument. The count of the users is a `short`, which wraps.
use general_purpose_library.Prelude.{
  ℕ, zero, suc, ◌+◌, Bool, true, false, not, Option, none, some, List, length, ltb, if◌then◌else◌,
  ℤ, pos, negsuc, ◌+ℤ◌, ◌-ℤ◌, eqb_ℤ, to_short,
}

-- pthread_mutex_*, by the state of the mutex
pub record Robust {ℓ} (M : Type ℓ) : Type ℓ where
  pub owner_dead : ℤ
  pub init : M
  pub lock : M → ℤ × M
  pub make_consistent : M → M
  pub unlock : M → ℤ × M

-- ipc_mutex_t
pub record Shared {ℓ} (M : Type ℓ) : Type ℓ where
  pub mutex : M
  pub refcnt : ℤ
  pub priv : List ℕ

pub record Answers : Type 0 where
  pub opened : Bool
  pub truncated : Bool
  pub mapped : Bool

-- MAX_SHM_NAME_LEN
abbrev pub max_shm_name_len : ℕ
max_shm_name_len = 128

module _ {ℓ} {M : Type ℓ} (robust : Robust M) where
  abbrev pub fresh_shared : List ℕ → Shared M
  fresh_shared name = record { mutex = robust.init; refcnt = pos 0; priv = name }

  abbrev pub join : Shared M → Shared M
  join shared = record shared { refcnt = to_short (shared.refcnt +ℤ pos 1) }

  -- The handle, and the object of that name, `none` where it does not exist; with no name, the
  -- length of NULL is asked for before the test.
  unfoldable pub ipc_mutex_create :
      Option (List ℕ) → Answers → Option (Shared M) → Option (Bool × Option (Shared M))
  ipc_mutex_create none answers object = none
  ipc_mutex_create (some name) answers object = elim (ltb (9 + length name) max_shm_name_len) [
    | false ↦ none
    | true ↦ elim answers.opened [
      | false ↦ some (false, object)
      | true ↦ elim object [
        | none ↦ elim answers.truncated [
          | false ↦ some (false, none)
          | true ↦ elim answers.mapped [
            | false ↦ some (false, none)
            | true ↦ some (true, some (join (fresh_shared name)))
          ]
        ]
        | some shared ↦ elim answers.mapped [
          | false ↦ some (false, none)
          | true ↦ some (true, some (join shared))
        ]
      ]
    ]
  ]

  -- `do … while (EOWNERDEAD == ret)`, with rounds left
  unfoldable pub lock_loop : ℕ → Shared M → Option (ℤ × Shared M)
  lock_loop zero shared = none
  lock_loop (suc rounds) shared =
      let (ret, held) = robust.lock shared.mutex in
      elim (eqb_ℤ robust.owner_dead ret) [
        | false ↦ some (ret, record shared { mutex = held })
        | true ↦ lock_loop rounds (record shared {
          mutex = (robust.unlock (robust.make_consistent held)).1;
          refcnt = to_short (shared.refcnt -ℤ pos 1);
        })
      ]

  abbrev pub lock_reply : Option (ℤ × Shared M) → Option (ℤ × Option (Shared M))
  lock_reply none = none
  lock_reply (some (ret, shared)) =
      some (if not (eqb_ℤ (pos 0) ret) then negsuc 0 else pos 0, some shared)

  unfoldable pub ipc_mutex_lock : ℕ → Option (Shared M) → Option (ℤ × Option (Shared M))
  ipc_mutex_lock rounds none = some (negsuc 0, none)
  ipc_mutex_lock rounds (some shared) = lock_reply (lock_loop rounds shared)

  unfoldable pub ipc_mutex_unlock : Option (Shared M) → ℤ × Option (Shared M)
  ipc_mutex_unlock none = (negsuc 0, none)
  ipc_mutex_unlock (some shared) =
      let (ret, mutex) = robust.unlock shared.mutex in
      (if not (eqb_ℤ (pos 0) ret) then negsuc 0 else pos 0, some (record shared { mutex = mutex }))

  -- What becomes of the object; `unlinked` is whether shm_unlink succeeds.
  unfoldable pub ipc_mutex_destroy : (unlinked : Bool) → Option (Shared M) → ℤ × Option (Shared M)
  ipc_mutex_destroy unlinked none = (negsuc 0, none)
  ipc_mutex_destroy unlinked (some shared) =
      let count = to_short (shared.refcnt -ℤ pos 1) in
      elim (eqb_ℤ count (pos 0)) [
        | false ↦ (pos 0, some (record shared { refcnt = count }))
        | true ↦
            if unlinked then (pos 0, none) else (negsuc 0, some (record shared { refcnt = count }))
      ]
