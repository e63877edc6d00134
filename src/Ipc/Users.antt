-- ===== src/Ipc/Users.antt =====
-- The users of the shared mutex: who dies holding it, and how many there are.
use general_purpose_library.Prelude.{
  ℕ, zero, suc, ◌+◌, ◌-◌, ◌^◌, ◌≤◌, ◌<◌, ◌≡◌, refl, ap, ◌∙◌, arith, true, false, Option, none, some,
  ℤ, pos, negsuc, ◌+ℤ◌, ◌-ℤ◌, ◌≤ℤ◌, eqb_ℤ, to_short, to_short_fits, int_laws, to_u64,
}
use general_purpose_library.Ipc.Mutex.{
  Robust, Shared, join, lock_loop, lock_reply, ipc_mutex_lock, ipc_mutex_destroy,
}

module _ {ℓ} {M : Type ℓ} (robust : Robust M) where
  -- What pthreads documents of a robust mutex whose owner has ended: the next lock reports it, and
  -- after it was made consistent and unlocked it can be taken.
  pub record IsDead (dead : M) : Type ℓ where
    pub held : M
    pub again : M
    pub taken : M
    pub report : robust.lock dead ≡ (robust.owner_dead, held)
    pub freed : (robust.unlock (robust.make_consistent held)).1 ≡ again
    pub take : robust.lock again ≡ (pos 0, taken)
    pub not_zero : eqb_ℤ robust.owner_dead (pos 0) ≡ false

  same_code : (a : ℤ) → eqb_ℤ a a ≡ true
  same_code a = ground arith

  one_fewer :
      (n : ℤ)
      → negsuc (2 ^ 15 - 2) ≤ℤ n
      → n ≤ℤ pos (2 ^ 15 - 1)
      → to_short (n -ℤ pos 1) ≡ n -ℤ pos 1
  one_fewer n low high = to_short_fits (n -ℤ pos 1) (omega int_laws) (omega int_laws)

  -- One round, after the lock has answered
  abbrev after_lock : ℕ → Shared M → ℤ × M → Option (ℤ × Shared M)
  after_lock rounds shared (ret, held) = elim (eqb_ℤ robust.owner_dead ret) [
    | false ↦ some (ret, record shared { mutex = held })
    | true ↦ lock_loop robust rounds (record shared {
      mutex = (robust.unlock (robust.make_consistent held)).1;
      refcnt = to_short (shared.refcnt -ℤ pos 1);
    })
  ]

  loop_reports :
      (rounds : ℕ) (shared : Shared M) (dead : IsDead shared.mutex)
      → lock_loop robust (suc rounds) shared
        ≡ lock_loop robust rounds
            (record shared { mutex = dead.again; refcnt = to_short (shared.refcnt -ℤ pos 1) })
  unfolding lock_loop
  loop_reports rounds shared dead =
      ap (after_lock rounds shared) dead.report
      ∙ rw (after_lock, same_code robust.owner_dead, dead.freed) refl

  loop_takes :
      (rounds : ℕ) (shared : Shared M) (taken : M)
      → robust.lock shared.mutex ≡ (pos 0, taken)
      → eqb_ℤ robust.owner_dead (pos 0) ≡ false
      → lock_loop robust (suc rounds) shared ≡ some (pos 0, record shared { mutex = taken })
  unfolding lock_loop
  loop_takes rounds shared taken take not_zero =
      ap (after_lock rounds shared) take ∙ rw (after_lock, not_zero) refl

  -- Where the owner of a robust mutex has died, and the mutex behaves as pthreads documents,
  -- ipc_mutex_lock answers 0 within two rounds of its loop, with the mutex taken and one user
  -- fewer, for a count above the least value of a short.
  pub ipc_mutex_lock_recovers :
      (rounds : ℕ) (shared : Shared M) (dead : IsDead shared.mutex)
      → negsuc (2 ^ 15 - 2) ≤ℤ shared.refcnt
      → shared.refcnt ≤ℤ pos (2 ^ 15 - 1)
      → ipc_mutex_lock robust (suc (suc rounds)) (some shared)
        ≡ some (pos 0, some (record shared { mutex = dead.taken; refcnt = shared.refcnt -ℤ pos 1 }))
  unfolding ipc_mutex_lock
  ipc_mutex_lock_recovers rounds shared dead low high =
      let freed = λ (count : ℤ). record shared { mutex = dead.again; refcnt = count } in
      ap (lock_reply robust) (
        loop_reports (suc rounds) shared dead
        ∙ ap (λ (count : ℤ). lock_loop robust (suc rounds) (freed count))
            (one_fewer shared.refcnt low high)
        ∙ loop_takes rounds (freed (shared.refcnt -ℤ pos 1)) dead.taken dead.take dead.not_zero)

  -- `n` more users, and `n` fewer
  abbrev pub joined : ℕ → Shared M → Shared M
  joined zero shared = shared
  joined (suc n) shared = joined n (join robust shared)

  abbrev pub left : ℕ → Option (Shared M) → Option (Shared M)
  left zero object = object
  left (suc n) object = left n (ipc_mutex_destroy robust true object).1

  abbrev pub counting : Shared M → ℕ → Shared M
  counting shared k = record shared { refcnt = pos k }

  join-counting :
      (k : ℕ) (shared : Shared M)
      → suc k < 2 ^ 15
      → join robust (counting shared k) ≡ counting shared (suc k)
  unfolding ◌+ℤ◌ to_short to_u64
  join-counting k shared h = ap (λ (r : ℤ). record shared { refcnt = r }) (ground arith)

  joined_lem :
      (n k : ℕ) (shared : Shared M)
      → k + n < 2 ^ 15
      → joined n (counting shared k) ≡ counting shared (k + n)
  joined_lem zero k shared h = ap (counting shared) (omega arith)
  joined_lem (suc n) k shared h =
      ap (joined n) (join-counting k shared (omega arith))
      ∙ joined_lem n (suc k) shared (omega arith)
      ∙ ap (counting shared) (omega arith)

  destroy_counting :
      (k : ℕ) (shared : Shared M)
      → 1 ≤ k
      → k < 2 ^ 15
      → (ipc_mutex_destroy robust true (some (counting shared (suc k)))).1
        ≡ some (counting shared k)
  unfolding ipc_mutex_destroy ◌-ℤ◌ to_short to_u64
  destroy_counting k shared h small = ground arith

  left_lem :
      (n k : ℕ) (shared : Shared M)
      → 1 ≤ k
      → k + n < 2 ^ 15
      → left n (some (counting shared (k + n))) ≡ some (counting shared k)
  left_lem zero k shared h small = ap (λ (m : ℕ). some (counting shared m)) (omega arith)
  left_lem (suc n) k shared h small =
      let count : k + suc n ≡ suc (k + n) = omega arith in
      ap (λ (m : ℕ). left (suc n) (some (counting shared m))) count
      ∙ ap (left n) (destroy_counting (k + n) shared (omega arith) (omega arith))
      ∙ left_lem n k shared h (omega arith)

  last_user :
      (shared : Shared M) → (ipc_mutex_destroy robust true (some (counting shared 1))).1 ≡ none
  unfolding ipc_mutex_destroy ◌-ℤ◌ to_short to_u64
  last_user shared = ground arith

  all_left :
      (n : ℕ) (shared : Shared M)
      → suc n < 2 ^ 15
      → left (suc n) (some (counting shared (suc n))) ≡ none
  all_left zero shared h = last_user shared
  all_left (suc n) shared h =
      ap (left (suc n)) (destroy_counting (suc n) shared (omega arith) (omega arith))
      ∙ all_left n shared (omega arith)

  -- After n processes have joined a shared mutex with k users, at least one and k + n fewer than
  -- 2^15, and as many have destroyed their handles, the object is there with the users it had; one
  -- destroy more, from one user, unlinks it.
  pub users_balance :
      (n k : ℕ) (shared : Shared M)
      → 1 ≤ k
      → k + n < 2 ^ 15
      → (left n (some (joined n (counting shared k))) ≡ some (counting shared k))
        × (left (suc n) (some (joined n (counting shared 1))) ≡ none)
  users_balance n k shared h small = (
    ap (λ (s : Shared M). left n (some s)) (joined_lem n k shared small)
        ∙ left_lem n k shared h small,
    ap (λ (s : Shared M). left (suc n) (some s)) (joined_lem n 1 shared (omega arith))
        ∙ ap (λ (m : ℕ). left (suc n) (some (counting shared m))) (omega arith)
        ∙ all_left n shared (omega arith),
  )
