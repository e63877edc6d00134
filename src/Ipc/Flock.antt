-- ===== src/Ipc/Flock.antt =====
-- ipc_competition/ipc_flock.c: a lock on a whole file by fcntl.
use general_purpose_library.Prelude.{ℕ, true, false, Option, none, some, List, ℤ, pos, negsuc}
use general_purpose_library.Ipc.{
  gave, failed, LockType, write_lock, unlock, System, tmp_name, ◌>>=◌,
}
use general_purpose_library.Ipc.Semsv.{ensure_file}

-- ipc_flock_t
pub record Flock : Type 0 where
  pub fd : ℤ

module _ {ℓ} {W : Type ℓ} (sys : System W) where
  unfoldable pub ipc_flock_create : Option (List ℕ) → W → Option (Option Flock × W)
  ipc_flock_create none w = some (none, w)
  ipc_flock_create (some name) w = do
    file ← tmp_name name
    some (
        let (answer, w1) = sys.calloc (ensure_file sys file w) in
        elim answer [
          | false ↦ (none, w1)
          | true ↦
              let (answer, w2) = sys.open_file file w1 in
              elim answer [
                | failed e ↦ (none, sys.free w2)
                | gave fd ↦ (some (record { fd = fd }), w2)
              ]
        ])

  unfoldable pub flock_simple : LockType → Option Flock → W → ℤ × W
  flock_simple type none w = (negsuc 0, w)
  flock_simple type (some flock) w =
      let (answer, w1) = sys.set_lock flock.fd type w in
      elim answer [ some e ↦ (negsuc 0, w1) | none ↦ (pos 0, w1) ]

  abbrev pub ipc_flock_lock : Option Flock → W → ℤ × W
  ipc_flock_lock = flock_simple write_lock

  abbrev pub ipc_flock_unlock : Option Flock → W → ℤ × W
  ipc_flock_unlock = flock_simple unlock

  unfoldable pub ipc_flock_destroy : Option Flock → W → ℤ × W
  ipc_flock_destroy none w = (negsuc 0, w)
  ipc_flock_destroy (some flock) w = (pos 0, sys.free (sys.close_file flock.fd w))
