-- ===== src/Ipc/Tests.antt =====
-- A system that counts open files and remembers nothing else, a mutex with a dead owner, and the
-- theorems on them.
use general_purpose_library.Prelude.{
  ℕ, zero, suc, ◌-◌, ◌≡◌, refl, arith, true, false, none, some, [], ◌∷◌, ℤ, pos, negsuc, ◌+ℤ◌, ◌-ℤ◌,
  to_short, to_u64,
}
use general_purpose_library.Ipc.{gave, failed, no_stat, System, tmp_name}
use general_purpose_library.Ipc.Mkdir.{fs_mkdirs, walk, make_segment}
use general_purpose_library.Ipc.Semsv.{Semsv, ensure_file}
use general_purpose_library.Ipc.Mutex.{Robust, Shared, join, ipc_mutex_lock}
use general_purpose_library.Ipc.Users.{
  IsDead, ipc_mutex_lock_recovers, joined, left, counting, users_balance,
}
use general_purpose_library.Ipc.Leaks.{CountsFiles, fs_mkdirs_files}

abbrev sys : System ℕ
sys = record {
  einval = 22;
  enoent = 2;
  eexist = 17;
  eloop = 40;
  enotdir = 20;
  exists = λ name w. true;
  open_root = λ w. (gave (pos w), suc w);
  fstatat = λ fd name w. no_stat 2;
  mkdirat = λ fd name w. (none, w);
  openat = λ fd name w. (gave (pos w), suc w);
  open_file = λ name w. (failed 2, w);
  creat = λ name w. (failed 13, w);
  close_file = λ fd w. w - 1;
  calloc = λ w. (false, w);
  strdup = λ w. w;
  free = λ w. w;
  ftok = λ name w. pos 1;
  semget_new = λ key w. (failed 17, w);
  semget = λ key w. pos 7;
  set_value = λ id w. (none, w);
  remove = λ id w. (none, w);
  semop = λ id op w. (some 22, w);
  set_lock = λ fd type w. (none, w);
}

counts : CountsFiles sys
counts = record {
  files = λ w. w;
  open_root = λ w. refl;
  openat = λ fd name w. refl;
  creat = λ name w. refl;
  mkdirat = λ fd name w. refl;
  close_file = λ fd w. refl;
}

-- "/a//b/c" and "/a/../b"
two_paths :
    ((fs_mkdirs sys (47 ∷ 97 ∷ 47 ∷ 47 ∷ 98 ∷ 47 ∷ 99 ∷ []) 3).0 ≡ pos 0)
    × ((fs_mkdirs sys (47 ∷ 97 ∷ 47 ∷ 46 ∷ 46 ∷ 47 ∷ 98 ∷ []) 3).0 ≡ negsuc 21)
unfolding fs_mkdirs walk make_segment ◌-ℤ◌
two_paths = (refl, refl)

fs_mkdirs_files_example : counts.files (fs_mkdirs sys (47 ∷ 97 ∷ 47 ∷ 98 ∷ []) 3).1 ≡ counts.files 3
fs_mkdirs_files_example = fs_mkdirs_files sys counts (47 ∷ 97 ∷ 47 ∷ 98 ∷ []) 3

abbrev semsv : Semsv
semsv = record { sem_id = pos 7; is_creator = false; lockref = pos 0; name = some (97 ∷ []) }

fits : tmp_name (97 ∷ []) ≡ some (47 ∷ 116 ∷ 109 ∷ 112 ∷ 47 ∷ 97 ∷ [])
unfolding tmp_name
fits = refl

no_memory : sys.calloc (ensure_file sys (47 ∷ 116 ∷ 109 ∷ 112 ∷ 47 ∷ 97 ∷ []) 0) ≡ (false, 0)
unfolding ensure_file
no_memory = refl

-- 0 is free, 1 held, and 2 left by a dead owner
abbrev lock_number : ℕ → ℤ × ℕ
lock_number zero = (pos 0, 1)
lock_number (suc m) = (pos 130, 1)

abbrev robust : Robust ℕ
robust = record {
  owner_dead = pos 130;
  init = 0;
  lock = lock_number;
  make_consistent = λ m. m;
  unlock = λ m. (pos 0, 0);
}

abbrev shared : Shared ℕ
shared = record { mutex = 2; refcnt = pos 2; priv = 97 ∷ [] }

abbrev dead : IsDead robust 2
dead = record {
  held = 1;
  again = 0;
  taken = 1;
  report = refl;
  freed = refl;
  take = refl;
  not_zero = refl;
}

ipc_mutex_lock_recovers_example :
    ipc_mutex_lock robust 2 (some shared)
    ≡ some (pos 0, some (record shared { mutex = 1; refcnt = pos 2 -ℤ pos 1 }))
ipc_mutex_lock_recovers_example =
    ipc_mutex_lock_recovers robust 0 shared dead (omega arith) (omega arith)

-- The user after 2 ^ 15 - 1 users makes the count negative.
count_wraps : (join robust (counting robust shared 32767)).refcnt ≡ negsuc 32767
unfolding ◌+ℤ◌ to_short to_u64
count_wraps = refl

users_balance_example :
    (left robust 3 (some (joined robust 3 (counting robust shared 2)))
      ≡ some (counting robust shared 2))
    × (left robust 4 (some (joined robust 3 (counting robust shared 1))) ≡ none)
users_balance_example = users_balance robust 3 2 shared (omega arith) (omega arith)
