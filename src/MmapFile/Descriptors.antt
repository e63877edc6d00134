-- ===== src/MmapFile/Descriptors.antt =====
-- The descriptors that are open after the routines of linux/utils/src/mmap_file.c.
use general_purpose_library.Prelude.{
  ℕ, suc, ◌-◌, ◌≡◌, refl, ◌∙◌, arith, Bool, true, false, Option, none, some, List, ltb, ◌==◌,
  if◌then◌else◌, length, ℤ, negsuc, eqb_ℤ, to_u64, Bool-cases, inl, inr,
}
use general_purpose_library.MmapFile.{
  Mapper, path_max, extend, resolve, map_open, mmapfile, unmapfile, map_open_r, map_path_r,
  mmapfile_r,
}

module _ {ℓ} {W : Type ℓ} (io : Mapper W) where
  -- How many descriptors are open: an open that does not answer -1 adds one, and close takes one
  -- away. A mapping is never at NULL.
  pub record Counts : Type ℓ where
    pub descriptors : W → ℕ
    pub opened :
        (path : List ℕ) (w : W)
        → descriptors (io.open_read_write path w).1 ≡ (
            if eqb_ℤ (io.open_read_write path w).0 (negsuc 0)
            then descriptors w
            else suc (descriptors w))
    pub opened_read_only :
        (path : List ℕ) (w : W)
        → descriptors (io.open_read_only path w).1 ≡ (
            if eqb_ℤ (io.open_read_only path w).0 (negsuc 0)
            then descriptors w
            else suc (descriptors w))
    pub sought_end : (fd : ℤ) (w : W) → descriptors (io.lseek_end fd w).1 ≡ descriptors w
    pub sought_start : (fd : ℤ) (w : W) → descriptors (io.lseek_start fd w) ≡ descriptors w
    pub truncated : (fd : ℤ) (n : ℕ) (w : W) → descriptors (io.ftruncate fd n w) ≡ descriptors w
    pub mapped :
        (writable : Bool) (fd : ℤ) (n : ℕ) (w : W)
        → descriptors (io.mmap writable fd n w).1 ≡ descriptors w
    pub unmapped : (addr n : ℕ) (w : W) → descriptors (io.munmap addr n w) ≡ descriptors w
    pub closed : (fd : ℤ) (w : W) → descriptors (io.close_file fd w) ≡ descriptors w - 1
    pub somewhere :
        (writable : Bool) (fd : ℤ) (n : ℕ) (w : W) → ((io.mmap writable fd n w).0 == 0) ≡ false

  module _ (counts : Counts) where
    open counts use {descriptors}

    -- One more descriptor with a pointer, and none with NULL
    abbrev Leaves : ℕ → ℕ × W → Type 0
    Leaves n (p, w) = descriptors w ≡ (if p == 0 then n else suc n)

    extend_lem :
        (fd : ℤ) (size : ℕ) (r : ℤ × W) → descriptors (extend io fd size r) ≡ descriptors r.1
    extend_lem fd size (off, w) = counts.sought_start fd _ ∙ either (ltb (to_u64 _) size)
      where
        either : (b : Bool) → descriptors (if b then io.ftruncate fd size w else w) ≡ descriptors w
        either true = counts.truncated fd size w
        either false = refl

    map_open_lem :
        (n size : ℕ) (r : ℤ × W)
        → descriptors r.1 ≡ (if eqb_ℤ r.0 (negsuc 0) then n else suc n)
        → Leaves n (map_open io size r)
    map_open_lem n size (fd, w) same = elim (Bool-cases (eqb_ℤ fd (negsuc 0))) [
      | inl bad ↦ rw bad (same ∙ rw bad refl)
      | inr good ↦
          let w1 = extend io fd size (io.lseek_end fd w) in
          rw (good, counts.somewhere true fd size w1)
            (counts.mapped true fd size w1
              ∙ extend_lem fd size (io.lseek_end fd w)
              ∙ counts.sought_end fd w
              ∙ same
              ∙ rw good refl)
    ]

    map_open_r_lem :
        (n size : ℕ) (r : ℤ × W)
        → descriptors r.1 ≡ (if eqb_ℤ r.0 (negsuc 0) then n else suc n)
        → descriptors (map_open_r io size r).1 ≡ n
    map_open_r_lem n size (fd, w) same = elim (Bool-cases (eqb_ℤ fd (negsuc 0))) [
      | inl bad ↦ rw bad (same ∙ rw bad refl)
      | inr good ↦
          let e : descriptors w ≡ suc n = same ∙ rw good refl in
          rw good (
            omega (
              arith,
              counts.closed fd (io.mmap false fd size w).1,
              counts.mapped false fd size w,
              e,
            ))
    ]

    -- The two tests in front of the call that opens the file
    guarded :
        (n : ℕ) (b c : Bool) (w : W) (r : ℕ × W)
        → descriptors w ≡ n
        → Leaves n r
        → Leaves n (if b then (0, w) else if c then (0, w) else r)
    guarded n true c w r same h = same
    guarded n false true w r same h = same
    guarded n false false w r same h = h

    unchanged :
        (n : ℕ) (b c : Bool) (w : W) (r : ℕ × W)
        → descriptors w ≡ n
        → descriptors r.1 ≡ n
        → descriptors (if b then (0, w) else if c then (0, w) else r).1 ≡ n
    unchanged n true c w r same h = same
    unchanged n false true w r same h = same
    unchanged n false false w r same h = h

    mmapfile_lem :
        (fn : Option (List ℕ)) (size : ℕ) (w : W) → Leaves (descriptors w) (mmapfile io fn size w)
    unfolding mmapfile
    mmapfile_lem none size w = refl
    mmapfile_lem (some fn) size w =
        guarded (descriptors w) (ltb path_max (length fn)) (size == 0) w _ refl (
          map_open_lem (descriptors w) size
            (io.open_read_write (resolve io fn (io.realpath fn w)) w) (counts.opened _ w))

    map_path_r_lem :
        (size : ℕ) (path : Option (List ℕ)) (w : W)
        → descriptors (map_path_r io size path w).1 ≡ descriptors w
    map_path_r_lem size none w = refl
    map_path_r_lem size (some path) w =
        map_open_r_lem (descriptors w) size (io.open_read_only path w)
          (counts.opened_read_only path w)

    mmapfile_r_lem :
        (fn : Option (List ℕ)) (size : ℕ) (w : W)
        → descriptors (mmapfile_r io fn size w).1 ≡ descriptors w
    unfolding mmapfile_r
    mmapfile_r_lem none size w = refl
    mmapfile_r_lem (some fn) size w =
        unchanged (descriptors w) (size == 0) (ltb path_max (length fn)) w _ refl
          (map_path_r_lem size (io.realpath fn w) w)

    -- After unmapfile of what mmapfile has mapped one more descriptor is open than before it, and
    -- as many where mmapfile answers NULL; after unmapfile of what mmapfile_r has answered as many
    -- are.
    pub unmapfile_lem :
        (fn : Option (List ℕ)) (size : ℕ) (unmap_size : ℤ) (w : W)
        → let (p, w1) = mmapfile io fn size w in
          let (q, w2) = mmapfile_r io fn size w in
          (descriptors (unmapfile io p unmap_size w1)
            ≡ (if p == 0 then descriptors w else suc (descriptors w)))
          × (descriptors (unmapfile io q unmap_size w2) ≡ descriptors w)
    unfolding unmapfile
    unmapfile_lem fn size unmap_size w = (
      counts.unmapped _ _ _ ∙ mmapfile_lem fn size w,
      counts.unmapped _ _ _ ∙ mmapfile_r_lem fn size w,
    )
