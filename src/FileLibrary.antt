-- ===== src/FileLibrary.antt =====
-- file_library.c: the length of a file. The calls of the system are the fields of `Files`, over a
-- state `W`.
use general_purpose_library.Prelude.{
  ℕ, suc, ◌-◌, ◌≡◌, refl, ◌∙◌, arith, List, if◌then◌else◌, ℤ, pos, negsuc, ltb_ℤ, Bool-cases, inl,
  inr,
}

pub record Files {ℓ} (W : Type ℓ) : Type ℓ where
  pub open_read_only : List ℕ → W → ℤ × W
  pub lseek_end : ℤ → W → ℤ × W
  pub close_file : ℤ → W → W

module _ {ℓ} {W : Type ℓ} (io : Files W) where
  abbrev pub close_sought : ℤ → ℤ × W → ℤ × W
  close_sought fd (size, w) = (size, io.close_file fd w)

  abbrev pub size_of_open : ℤ × W → ℤ × W
  size_of_open (fd, w) =
      if ltb_ℤ fd (pos 0) then (negsuc 0, w) else close_sought fd (io.lseek_end fd w)

  pub gplib_get_file_size : List ℕ → W → ℤ × W
  gplib_get_file_size name w = size_of_open (io.open_read_only name w)

  -- How many files are open: an open that succeeds adds one, and close takes one away.
  pub record CountsFiles : Type ℓ where
    pub files : W → ℕ
    pub opened :
        (name : List ℕ) (w : W)
        → files (io.open_read_only name w).1
          ≡ (if ltb_ℤ (io.open_read_only name w).0 (pos 0) then files w else suc (files w))
    pub sought : (fd : ℤ) (w : W) → files (io.lseek_end fd w).1 ≡ files w
    pub closed : (fd : ℤ) (w : W) → files (io.close_file fd w) ≡ files w - 1

  module _ (counts : CountsFiles) where
    open counts use {files}

    size_of_open_lem :
        (n : ℕ) (r : ℤ × W)
        → files r.1 ≡ (if ltb_ℤ r.0 (pos 0) then n else suc n)
        → files (size_of_open r).1 ≡ n
    size_of_open_lem n (fd, w) same = elim (Bool-cases (ltb_ℤ fd (pos 0))) [
      | inl bad ↦ rw bad (same ∙ rw bad refl)
      | inr good ↦
          let e : files w ≡ suc n = same ∙ rw good refl in
          rw good (omega (arith, counts.closed fd (io.lseek_end fd w).1, counts.sought fd w, e))
    ]

    -- gplib_get_file_size leaves as many files open as there were, whichever of its calls fail.
    pub gplib_get_file_size_lem :
        (name : List ℕ) (w : W) → files (gplib_get_file_size name w).1 ≡ files w
    unfolding gplib_get_file_size
    gplib_get_file_size_lem name w =
        size_of_open_lem (files w) (io.open_read_only name w) (counts.opened name w)
