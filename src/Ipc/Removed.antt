-- ===== src/Ipc/Removed.antt =====
-- Names that do not fit, and a semaphore that its creator has removed.
use general_purpose_library.Prelude.{
  ℕ, ◌≤◌, ◌≡◌, refl, ap, ◌∙◌, arith, Bool, true, false, Option, none, some, List, length, ◌==◌,
  negsuc,
}
use general_purpose_library.Ipc.{System, tmp_name}
use general_purpose_library.Ipc.Semsv.{
  Semsv, ensure_file, ipc_semsv_create, ipc_semsv_lock, recreate,
}
use general_purpose_library.Ipc.Flock.{ipc_flock_create}

tmp_name_long : (name : List ℕ) → 123 ≤ length name → tmp_name name ≡ none
unfolding tmp_name
tmp_name_long name h = ground arith

module _ {ℓ} {W : Type ℓ} (sys : System W) where
  -- With a name of 123 bytes or more, ipc_semsv_create and ipc_flock_create write past the end of
  -- the buffer for the path.
  pub long_names :
      (name : List ℕ) (w : W)
      → 123 ≤ length name
      → (ipc_semsv_create sys (some name) w ≡ none) × (ipc_flock_create sys (some name) w ≡ none)
  unfolding ipc_semsv_create ipc_flock_create
  long_names name w h = rw (tmp_name_long name h) (refl, refl)

  same_errno : (e : ℕ) → (e == e) ≡ true
  same_errno e = ground arith

  no_memory :
      (name file : List ℕ) (w w1 : W)
      → tmp_name name ≡ some file
      → sys.calloc (ensure_file sys file w) ≡ (false, w1)
      → ipc_semsv_create sys (some name) w ≡ some (none, w1)
  unfolding ipc_semsv_create
  no_memory name file w w1 fits empty =
      rw (ipc_semsv_create, fits, empty) (ap (λ (r : Bool × W). some (none, r.1)) empty)

  not_recreated :
      (semsv : Semsv) (name file : List ℕ) (w w1 : W)
      → tmp_name name ≡ some file
      → sys.calloc (ensure_file sys file w) ≡ (false, w1)
      → recreate sys semsv name w ≡ none
  unfolding recreate
  not_recreated semsv name file w w1 fits empty =
      rw (recreate, no_memory name file w w1 fits empty) refl

  -- Where semop reports that the semaphore was removed and there is no memory for a new handle,
  -- ipc_semsv_lock copies from NULL.
  pub lock_copies_null :
      (semsv : Semsv) (name file : List ℕ) (w w1 w2 : W)
      → semsv.name ≡ some name
      → tmp_name name ≡ some file
      → sys.semop semsv.sem_id (negsuc 0) w ≡ (some sys.einval, w1)
      → sys.calloc (ensure_file sys file w1) ≡ (false, w2)
      → ipc_semsv_lock sys (some semsv) w ≡ none
  unfolding ipc_semsv_lock
  lock_copies_null semsv name file w w1 w2 named fits removed empty =
      rw (ipc_semsv_lock, removed, same_errno sys.einval, named)
        (ap (λ (r : Option ℕ × W). recreate sys semsv name r.1) removed
          ∙ not_recreated semsv name file w1 w2 fits empty)
