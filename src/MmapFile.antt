-- ===== src/MmapFile.antt =====
-- linux/utils/src/mmap_file.c: files that are mapped. The calls of the system are the fields of
-- `Mapper`, over a state `W`. A pointer is a number, with 0 for NULL; a name is `none` where it is
-- NULL, and its bytes without the terminator otherwise.
pub mod Descriptors
pub mod Length
mod Tests
use general_purpose_library.Prelude.{
  ℕ, ◌-◌, ◌%◌, ◌^◌, Bool, true, false, ◌||◌, Option, none, some, List, ltb, ◌==◌, if◌then◌else◌,
  length, ℤ, pos, negsuc, eqb_ℤ, to_u64, to_int,
}

pub record Mapper {ℓ} (W : Type ℓ) : Type ℓ where
  pub realpath : List ℕ → W → Option (List ℕ)
  pub open_read_write : List ℕ → W → ℤ × W
  pub open_read_only : List ℕ → W → ℤ × W
  pub lseek_end : ℤ → W → ℤ × W
  pub lseek_start : ℤ → W → W
  pub ftruncate : ℤ → ℕ → W → W
  pub mmap : (writable : Bool) → ℤ → ℕ → W → ℕ × W
  pub munmap : ℕ → ℕ → W → W
  pub close_file : ℤ → W → W

-- PATH_MAX
abbrev pub path_max : ℕ
path_max = 4096

module _ {ℓ} {W : Type ℓ} (io : Mapper W) where
  abbrev pub resolve : List ℕ → Option (List ℕ) → List ℕ
  resolve fn none = fn
  resolve fn (some path) = path

  -- `len` is converted to the unsigned type of `size`.
  abbrev pub extend : ℤ → ℕ → ℤ × W → W
  extend mem_fd size (off, w) =
      io.lseek_start mem_fd
        (if ltb (to_u64 (to_int off)) size then io.ftruncate mem_fd size w else w)

  abbrev pub map_open : ℕ → ℤ × W → ℕ × W
  map_open size (mem_fd, w) =
      if eqb_ℤ mem_fd (negsuc 0)
      then (0, w)
      else io.mmap true mem_fd size (extend mem_fd size (io.lseek_end mem_fd w))

  unfoldable pub mmapfile : Option (List ℕ) → ℕ → W → ℕ × W
  mmapfile none size w = (0, w)
  mmapfile (some fn) size w =
      if ltb path_max (length fn)
      then (0, w)
      else if size == 0
      then (0, w)
      else map_open size (io.open_read_write (resolve fn (io.realpath fn w)) w)

  unfoldable pub unmapfile : ℕ → ℤ → W → W
  unmapfile addr size w = io.munmap addr (to_u64 size) w

  abbrev pub close_mapped : ℤ → ℕ × W → ℕ × W
  close_mapped mem_fd (p_shm, w) = (p_shm, io.close_file mem_fd w)

  abbrev pub map_open_r : ℕ → ℤ × W → ℕ × W
  map_open_r size (mem_fd, w) =
      if eqb_ℤ mem_fd (negsuc 0) then (0, w) else close_mapped mem_fd (io.mmap false mem_fd size w)

  abbrev pub map_path_r : ℕ → Option (List ℕ) → W → ℕ × W
  map_path_r size none w = (0, w)
  map_path_r size (some path) w = map_open_r size (io.open_read_only path w)

  unfoldable pub mmapfile_r : Option (List ℕ) → ℕ → W → ℕ × W
  mmapfile_r none size w = (0, w)
  mmapfile_r (some fn) size w =
      if size == 0
      then (0, w)
      else if ltb path_max (length fn)
      then (0, w)
      else map_path_r size (io.realpath fn w) w
