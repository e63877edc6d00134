-- ===== src/Ipc/Semsv.antt =====
-- ipc_competition/ipc_semsv.c: a lock on a System V semaphore. A handle is its contents, and `none`
-- is NULL; where a call may leave what C defines, the result of the whole call is `none`.
use general_purpose_library.Prelude.{
  ℕ, Bool, true, false, Option, none, some, List, ◌==◌, if◌then◌else◌, ℤ, pos, negsuc, ◌+ℤ◌, ◌-ℤ◌,
  ltb_ℤ,
}
use general_purpose_library.Ipc.{gave, failed, System, tmp_name, ◌>>=◌}
use general_purpose_library.Ipc.Mkdir.{fs_mkdirs, fs_create_file}

-- ipc_semsv_t
pub record Semsv : Type 0 where
  pub sem_id : ℤ
  pub is_creator : Bool
  pub lockref : ℤ
  pub name : Option (List ℕ)

module _ {ℓ} {W : Type ℓ} (sys : System W) where
  -- The file that names the lock is there afterwards; errors are not looked at.
  unfoldable pub ensure_file : List ℕ → W → W
  ensure_file file w =
      if sys.exists file w then w else (fs_create_file sys file (fs_mkdirs sys file w).1).1

  abbrev pub opened : ℤ → Bool → List ℕ → W → Option Semsv × W
  opened sem_id is_creator name w = (
    some (record { sem_id = sem_id; is_creator = is_creator; lockref = pos 0; name = some name }),
    sys.strdup w,
  )

  -- Line 42 to 76, with the handle allocated
  unfoldable pub open_semaphore : List ℕ → List ℕ → W → Option Semsv × W
  open_semaphore file name w =
      let key_id = sys.ftok file w in
      if ltb_ℤ key_id (pos 0)
      then (none, sys.free w)
      else let (answer, w1) = sys.semget_new key_id w in
        elim answer [
          | failed e ↦
              if e == sys.eexist
              then opened (sys.semget key_id w1) false name w1
              else (none, sys.free w1)
          | gave sem_id ↦
              let (answer, w2) = sys.set_value sem_id w1 in
              elim answer [ some e ↦ (none, sys.free w2) | none ↦ opened sem_id true name w2 ]
        ]

  unfoldable pub ipc_semsv_create : Option (List ℕ) → W → Option (Option Semsv × W)
  ipc_semsv_create none w = some (none, w)
  ipc_semsv_create (some name) w = do
    file ← tmp_name name
    some (
        let (answer, w1) = sys.calloc (ensure_file file w) in
        elim answer [ false ↦ (none, w1) | true ↦ open_semaphore file name w1 ])

  -- The lock was removed by its creator: a new one is made, and its contents are copied into the
  -- handle, from NULL where that failed.
  unfoldable pub recreate : Semsv → List ℕ → W → Option (ℤ × Option Semsv × W)
  recreate semsv name w = do
    (made, w1) ← ipc_semsv_create (some name) w
    new ← made
    some (negsuc 0, some new, sys.free w1)

  unfoldable pub ipc_semsv_lock : Option Semsv → W → Option (ℤ × Option Semsv × W)
  ipc_semsv_lock none w = some (negsuc 0, none, w)
  ipc_semsv_lock (some semsv) w =
      let (answer, w1) = sys.semop semsv.sem_id (negsuc 0) w in
      elim answer [
        | none ↦ some (pos 0, some (record semsv { lockref = semsv.lockref +ℤ pos 1 }), w1)
        | some e ↦ elim (sys.einval == e) [
          | false ↦ some (negsuc 0, some semsv, w1)
          | true ↦ elim semsv.name [
            | none ↦ some (negsuc 0, some semsv, w1)
            | some name ↦ recreate semsv name w1
          ]
        ]
      ]

  unfoldable pub ipc_semsv_unlock : Option Semsv → W → ℤ × Option Semsv × W
  ipc_semsv_unlock none w = (negsuc 0, none, w)
  ipc_semsv_unlock (some semsv) w =
      let (answer, w1) = sys.semop semsv.sem_id (pos 1) w in
      elim answer [
        | some e ↦ (negsuc 0, some semsv, w1)
        | none ↦ (pos 0, some (record semsv { lockref = semsv.lockref -ℤ pos 1 }), w1)
      ]

  abbrev pub free_semsv : Semsv → W → W
  free_semsv semsv w = elim semsv.name [ none ↦ sys.free w | some name ↦ sys.free (sys.free w) ]

  unfoldable pub ipc_semsv_destroy : Option Semsv → W → ℤ × W
  ipc_semsv_destroy none w = (negsuc 0, w)
  ipc_semsv_destroy (some semsv) w = elim semsv.is_creator [
    | false ↦ (pos 0, free_semsv semsv w)
    | true ↦
        let (answer, w1) = sys.remove semsv.sem_id w in
        elim answer [ some e ↦ (negsuc 0, w1) | none ↦ (pos 0, free_semsv semsv w1) ]
  ]
