-- ===== src/MmapFile/Tests.antt =====
-- Runs of linux/utils/src/mmap_file.c over a system with one file, and the theorems at them.
use general_purpose_library.Prelude.{
  ℕ, suc, ◌+◌, ◌-◌, ◌^◌, ◌≡◌, refl, arith, none, some, List, [], ◌∷◌, ltb, if◌then◌else◌, ℤ, pos,
  negsuc, eqb_ℤ, to_u64, to_int,
}
use general_purpose_library.MmapFile.{Mapper, mmapfile, unmapfile, mmapfile_r}
use general_purpose_library.MmapFile.Descriptors.{Counts, unmapfile_lem}
use general_purpose_library.MmapFile.Length.{Measures, mmapfile_cuts}

record Disk : Type 0 where
  descriptors : ℕ
  file_length : ℕ

-- The name "x" is that of a directory.
abbrev may_open : List ℕ → Disk → ℤ × Disk
may_open [] w = (negsuc 0, w)
may_open (c ∷ cs) w =
    if ltb c 120 then (pos 3, record w { descriptors = suc w.descriptors }) else (negsuc 0, w)

abbrev disk_io : Mapper Disk
disk_io = record {
  realpath = λ fn w. none;
  open_read_write = may_open;
  open_read_only = may_open;
  lseek_end = λ fd w. (pos w.file_length, w);
  lseek_start = λ fd w. w;
  ftruncate = λ fd n w. record w { file_length = n };
  mmap = λ writable fd n w. (4096, w);
  munmap = λ addr n w. w;
  close_file = λ fd w. record w { descriptors = w.descriptors - 1 };
}

abbrev disk : ℕ → Disk
disk n = record { descriptors = 3; file_length = n }

abbrev mem : List ℕ
mem = 109 ∷ 101 ∷ 109 ∷ []

may_open_lem :
    (fn : List ℕ) (w : Disk)
    → (may_open fn w).1.descriptors
      ≡ (if eqb_ℤ (may_open fn w).0 (negsuc 0) then w.descriptors else suc w.descriptors)
may_open_lem [] w = refl
may_open_lem (c ∷ cs) w = ground arith

may_open_length : (fn : List ℕ) (w : Disk) → (may_open fn w).1.file_length ≡ w.file_length
may_open_length [] w = refl
may_open_length (c ∷ cs) w = ground arith

disk-Counts : Counts disk_io
disk-Counts = record {
  descriptors = λ w. w.descriptors;
  opened = may_open_lem;
  opened_read_only = may_open_lem;
  sought_end = λ fd w. refl;
  sought_start = λ fd w. refl;
  truncated = λ fd n w. refl;
  mapped = λ writable fd n w. refl;
  unmapped = λ addr n w. refl;
  closed = λ fd w. refl;
  somewhere = λ writable fd n w. refl;
}

disk-Measures : Measures disk_io
disk-Measures = record {
  length_of = λ w. w.file_length;
  opened = may_open_length;
  answers = λ fd w. refl;
  sought_end = λ fd w. refl;
  sought_start = λ fd w. refl;
  truncated = λ fd n w. refl;
  mapped = λ writable fd n w. refl;
}

directory : mmapfile disk_io (some (120 ∷ [])) 16 (disk 8) ≡ (0, disk 8)
unfolding mmapfile
directory = refl

no_size : mmapfile disk_io (some mem) 0 (disk 8) ≡ (0, disk 8)
unfolding mmapfile
no_size = refl

unmapfile_lem_example :
    let (p, w1) = mmapfile disk_io (some mem) 16 (disk 8) in
    let (q, w2) = mmapfile_r disk_io (some mem) 16 (disk 8) in
    ((unmapfile disk_io p (pos 16) w1).descriptors ≡ 4)
    × ((unmapfile disk_io q (pos 16) w2).descriptors ≡ 3)
unfolding disk-Counts mmapfile to_int to_u64
unmapfile_lem_example = unmapfile_lem disk_io disk-Counts (some mem) 16 (pos 16) (disk 8)

mmapfile_cuts_example : (mmapfile disk_io (some mem) 16 (disk (2 ^ 32 + 10))).1.file_length ≡ 16
unfolding disk-Measures
mmapfile_cuts_example =
    mmapfile_cuts disk_io disk-Measures mem 16 (disk (2 ^ 32 + 10)) (refl, refl, refl) (omega arith)
      (omega arith) (omega arith)
