-- ===== src/MmapFile/Length.antt =====
-- The length of the file that mmapfile of linux/utils/src/mmap_file.c maps.
use general_purpose_library.Prelude.{
  ℕ, ◌+◌, ◌^◌, ◌≤◌, ◌<◌, ◌≡◌, ap, ◌∙◌, arith, Bool, true, false, some, List, ltb, ◌==◌,
  if◌then◌else◌, length, ℤ, pos, negsuc, eqb_ℤ, to_u64, to_int,
}
use general_purpose_library.MmapFile.{Mapper, path_max, extend, resolve, map_open, mmapfile}

module _ {ℓ} {W : Type ℓ} (io : Mapper W) where
  -- The length of the file that the calls work on, which lseek answers and ftruncate sets
  pub record Measures : Type ℓ where
    pub length_of : W → ℕ
    pub opened : (path : List ℕ) (w : W) → length_of (io.open_read_write path w).1 ≡ length_of w
    pub answers : (fd : ℤ) (w : W) → (io.lseek_end fd w).0 ≡ pos (length_of w)
    pub sought_end : (fd : ℤ) (w : W) → length_of (io.lseek_end fd w).1 ≡ length_of w
    pub sought_start : (fd : ℤ) (w : W) → length_of (io.lseek_start fd w) ≡ length_of w
    pub truncated : (fd : ℤ) (n : ℕ) (w : W) → length_of (io.ftruncate fd n w) ≡ n
    pub mapped :
        (writable : Bool) (fd : ℤ) (n : ℕ) (w : W)
        → length_of (io.mmap writable fd n w).1 ≡ length_of w

  -- What the int holds, as the comparison with `size` takes it
  abbrev pub as_int : ℕ → ℕ
  as_int n = to_u64 (to_int (pos n))

  abbrev pub new_length : ℕ → ℕ → ℕ
  new_length old size = if ltb (as_int old) size then size else old

  -- The tests that a name passes before its file is opened, and that it is opened
  abbrev pub Opens : List ℕ → ℕ → W → Type 0
  Opens fn size w =
      (ltb path_max (length fn) ≡ false)
      × ((size == 0) ≡ false)
      × (eqb_ℤ (io.open_read_write (resolve io fn (io.realpath fn w)) w).0 (negsuc 0) ≡ false)

  module _ (measures : Measures) where
    open measures use {length_of}

    extend_lem :
        (fd : ℤ) (size old : ℕ) (w : W)
        → length_of w ≡ old
        → length_of (extend io fd size (pos old, w)) ≡ new_length old size
    extend_lem fd size old w same = measures.sought_start fd _ ∙ either (ltb (as_int old) size)
      where
        either :
            (b : Bool)
            → length_of (if b then io.ftruncate fd size w else w) ≡ (if b then size else old)
        either true = measures.truncated fd size w
        either false = same

    map_open_lem :
        (size old : ℕ) (r : ℤ × W)
        → eqb_ℤ r.0 (negsuc 0) ≡ false
        → length_of r.1 ≡ old
        → length_of (map_open io size r).1 ≡ new_length old size
    map_open_lem size old (fd, w) good same =
        let w1 = (io.lseek_end fd w).1 in
        rw good (
          measures.mapped true fd size (extend io fd size (io.lseek_end fd w))
          ∙ ap (λ (z : ℤ). length_of (extend io fd size (z, w1)))
              (measures.answers fd w ∙ ap pos same)
          ∙ extend_lem fd size old w1 (measures.sought_end fd w ∙ same))

    mmapfile_length :
        (fn : List ℕ) (size : ℕ) (w : W)
        → Opens fn size w
        → length_of (mmapfile io (some fn) size w).1 ≡ new_length (length_of w) size
    unfolding mmapfile
    mmapfile_length fn size w (short, full, good) =
        rw (mmapfile, short, full)
          (map_open_lem size (length_of w) (io.open_read_write (resolve io fn (io.realpath fn w)) w)
            good (measures.opened _ w))

    small_int : (n size : ℕ) → n < 2 ^ 31 → new_length n size ≡ (if ltb n size then size else n)
    unfolding to_int to_u64
    small_int n size small = ground arith

    large_int :
        (n size : ℕ) → 2 ^ 32 ≤ n → n < 2 ^ 32 + size → size ≤ 2 ^ 31 → new_length n size ≡ size
    unfolding to_int to_u64
    large_int n size low high most = ground arith

    -- Where the file is shorter than 2 GiB and opened, mmapfile leaves it `size` bytes long or as long
    -- as it was, whichever is more.
    pub mmapfile_grows :
        (fn : List ℕ) (size : ℕ) (w : W)
        → Opens fn size w
        → length_of w < 2 ^ 31
        → length_of (mmapfile io (some fn) size w).1
          ≡ (if ltb (length_of w) size then size else length_of w)
    mmapfile_grows fn size w opens small =
        mmapfile_length fn size w opens ∙ small_int (length_of w) size small

    -- Where the file that is opened has 4 GiB and fewer than `size` bytes more, mmapfile cuts it
    -- to `size` bytes, for a size of 2 GiB at most.
    pub mmapfile_cuts :
        (fn : List ℕ) (size : ℕ) (w : W)
        → Opens fn size w
        → 2 ^ 32 ≤ length_of w
        → length_of w < 2 ^ 32 + size
        → size ≤ 2 ^ 31
        → length_of (mmapfile io (some fn) size w).1 ≡ size
    mmapfile_cuts fn size w opens low high most =
        mmapfile_length fn size w opens ∙ large_int (length_of w) size low high most
