-- ===== src/Ipc.antt =====
-- ipc_competition/: locks between processes, by System V semaphores, record locks on files and a
-- mutex in shared memory, and the directories that they are named by. The calls of the system are
-- the fields of `System`; `W` is the state behind them. Modes and messages are left out.
pub mod Mkdir
pub mod Semsv
pub mod Flock
pub mod Mutex
pub mod Users
pub mod Leaks
pub mod Removed
mod Tests
use general_purpose_library.Prelude.{
  ℕ, ◌+◌, Bool, Option, none, some, List, [], ◌∷◌, ◌++◌, length, ltb, if◌then◌else◌, ℤ, pos, ◌-ℤ◌,
}

infixl 5 ◌>>=◌
abbrev pub ◌>>=◌ {ℓ κ} : {A : Type ℓ} {B : Type κ} → Option A → (A → Option B) → Option B
none >>= k = none
some x >>= k = k x

-- What a call answers: a descriptor or an identifier, or -1 with the value of `errno`.
pub data Reply : Type 0 where
  gave : ℤ → Reply
  failed : ℕ → Reply

-- What fstatat finds, or the value of `errno`
pub data Stat : Type 0 where
  link directory other : Stat
  no_stat : ℕ → Stat

pub data LockType : Type 0 where
  write_lock unlock : LockType

-- A call with no answer but its status gives `none`, or the value of `errno`.
pub record System {ℓ} (W : Type ℓ) : Type ℓ where
  pub einval : ℕ
  pub enoent : ℕ
  pub eexist : ℕ
  pub eloop : ℕ
  pub enotdir : ℕ
  pub exists : List ℕ → W → Bool
  pub open_root : W → Reply × W
  pub fstatat : ℤ → List ℕ → W → Stat
  pub mkdirat : ℤ → List ℕ → W → Option ℕ × W
  pub openat : ℤ → List ℕ → W → Reply × W
  pub open_file : List ℕ → W → Reply × W
  pub creat : List ℕ → W → Reply × W
  pub close_file : ℤ → W → W
  pub calloc : W → Bool × W
  pub strdup : W → W
  pub free : W → W
  pub ftok : List ℕ → W → ℤ
  pub semget_new : ℤ → W → Reply × W
  pub semget : ℤ → W → ℤ
  pub set_value : ℤ → W → Option ℕ × W
  pub remove : ℤ → W → Option ℕ × W
  pub semop : ℤ → ℤ → W → Option ℕ × W
  pub set_lock : ℤ → LockType → W → Option ℕ × W

-- The result -errno
abbrev pub error : ℕ → ℤ
error e = pos 0 -ℤ pos e

-- MAX_SEM_NAME_LEN and MAX_FILE_LOCK_NAME_LEN
abbrev pub max_name_len : ℕ
max_name_len = 128

-- `sprintf(buffer, "/tmp/%s", name)`, with `none` where it writes past the end of the buffer
pub tmp_name : List ℕ → Option (List ℕ)
tmp_name name =
    if ltb (5 + length name) max_name_len
    then some ((47 ∷ 116 ∷ 109 ∷ 112 ∷ 47 ∷ []) ++ name)
    else none
