-- ===== src/Ipc/Leaks.antt =====
-- How many files are open, and how many blocks are allocated, before and after a call.
use general_purpose_library.Prelude.{
  ℕ, suc, ◌-◌, ◌≤◌, ◌≡◌, refl, arith, Bool, true, false, List, [], ◌∷◌, ◌++◌, ℤ,
}
use general_purpose_library.Ipc.{Reply, gave, failed, System, error}
use general_purpose_library.Ipc.Mkdir.{make_segment, walk, started, from_root, fs_mkdirs}

module _ {ℓ} {W : Type ℓ} (sys : System W) where
  -- An answer of a call that Opens a file
  abbrev pub Opens : (W → ℕ) → W → Reply × W → Type 0
  Opens files w (gave fd, w1) = files w1 ≡ suc (files w)
  Opens files w (failed e, w1) = files w1 ≡ files w

  pub record CountsFiles : Type ℓ where
    pub files : W → ℕ
    pub open_root : (w : W) → Opens files w (sys.open_root w)
    pub openat : (fd : ℤ) (name : List ℕ) (w : W) → Opens files w (sys.openat fd name w)
    pub creat : (name : List ℕ) (w : W) → Opens files w (sys.creat name w)
    pub mkdirat : (fd : ℤ) (name : List ℕ) (w : W) → files (sys.mkdirat fd name w).1 ≡ files w
    pub close_file : (fd : ℤ) (w : W) → files (sys.close_file fd w) ≡ files w - 1

module _ {ℓ} {W : Type ℓ} (sys : System W) (counts : CountsFiles sys) where
  make_segment_files :
      (fd : ℤ) (segment : List ℕ) (w : W)
      → counts.files (make_segment sys fd segment w).1 ≡ counts.files w
  unfolding make_segment
  make_segment_files fd segment w = let h = counts.mkdirat fd segment w in ground arith

  abbrev Closes : ℤ × W → W → Type 0
  Closes result w = suc (counts.files result.1) ≡ counts.files w

  abbrev go_in : ℤ → List ℕ → Reply × W → ℤ × W
  go_in fd cs (failed e, w2) = (error e, sys.close_file fd w2)
  go_in fd cs (gave next_fd, w2) = walk sys next_fd true [] cs (sys.close_file fd w2)

  module _ (cs : List ℕ)
      (rest : (fd : ℤ) (skipping : Bool) (segment : List ℕ) (w : W)
        → 1 ≤ counts.files w
        → Closes (walk sys fd skipping segment cs w) w) where
    go_in_files :
        (fd : ℤ) (w : W) (reply : Reply × W)
        → 1 ≤ counts.files w
        → Opens sys counts.files w reply
        → Closes (go_in fd cs reply) w
    go_in_files fd w (failed e, w2) h opened = let closed = counts.close_file fd w2 in omega arith
    go_in_files fd w (gave next_fd, w2) h opened =
        let closed = counts.close_file fd w2 in
        let after = rest next_fd true [] (sys.close_file fd w2) (omega arith) in omega arith

    walk_step :
        (fd : ℤ) (skipping : Bool) (segment : List ℕ) (c : ℕ) (w : W)
        → 1 ≤ counts.files w
        → Closes (walk sys fd skipping segment (c ∷ cs) w) w
    unfolding walk
    walk_step fd skipping segment c w h =
        let made = make_segment sys fd segment w in
        let kept = make_segment_files fd segment w in
        let same = rest fd false (segment ++ (c ∷ [])) w h in
        let skipped = rest fd true segment w h in
        let here = counts.close_file fd w in
        let stopped = counts.close_file fd made.1 in
        let inside =
          go_in_files fd made.1 (sys.openat fd segment made.1) (omega arith)
            (counts.openat fd segment made.1) in
        ground arith

  walk_files :
      (fd : ℤ) (skipping : Bool) (segment path : List ℕ) (w : W)
      → 1 ≤ counts.files w
      → Closes (walk sys fd skipping segment path w) w
  walk_files fd skipping segment [] w h =
      let a = counts.close_file fd w in unfold walk in omega arith
  walk_files fd skipping segment (c ∷ cs) w h =
      walk_step cs (λ fd skipping segment w. walk_files fd skipping segment cs w) fd skipping
        segment c w h

  from_root_files : (path : List ℕ) (w : W) → counts.files (from_root sys path w).1 ≡ counts.files w
  from_root_files path w = inside (sys.open_root w) (counts.open_root w)
    where
      inside :
          (reply : Reply × W)
          → Opens sys counts.files w reply
          → counts.files (started sys path reply).1 ≡ counts.files w
      inside (failed e, w1) opened = opened
      inside (gave fd, w1) opened =
          let closed = walk_files fd false [] path w1 (omega arith) in omega arith

  -- fs_mkdirs leaves as many files open as there were before, whatever the path is and whichever
  -- of its system calls fail, where each call that opens a file adds one, close takes one away and
  -- the others add none.
  pub fs_mkdirs_files :
      (path : List ℕ) (w : W) → counts.files (fs_mkdirs sys path w).1 ≡ counts.files w
  unfolding fs_mkdirs
  fs_mkdirs_files [] w = refl
  fs_mkdirs_files (c ∷ cs) w = let inside = from_root_files cs w in ground arith
