-- ===== src/FileUtils/Tests.antt =====
-- A file of three bytes, another to copy it to, and a command that prints a number of equal lines.
use mathlib.Core.List.{head-eq_of_cons-eq, tail-eq_of_cons-eq}
use general_purpose_library.Prelude.{
  ℕ, zero, suc, ◌<◌, ◌≡◌, refl, sym, ap, ◌∙◌, Bool, true, false, List, [], ◌∷◌, ◌++◌, ◌==◌, Option,
  none, some, if◌then◌else◌, pos, length, take, drop, replicate, to_int, to_u64, ltb, arith,
}
use general_purpose_library.Decimal.{until_nul}
use general_purpose_library.FileUtils.{
  Stdio, file_read_to_buffer, file_copy_content, file_system_cmd, file_get_size,
}
use general_purpose_library.FileUtils.Copy.{
  Transfer, Role, reader, writer, IsTransfer, HasCopied, file_copy_content_lem,
}
use general_purpose_library.FileUtils.Buffer.{file_read_to_buffer_lem}
use general_purpose_library.FileUtils.Command.{GivesLines, Answers, file_system_cmd_lem}

record Disk : Type 0 where
  files : Transfer
  left : ℕ

abbrev start : Disk
start = record {
  files = record {
    source = 7 ∷ 8 ∷ 9 ∷ [];
    target = 5 ∷ [];
    unread = [];
    past_end = false;
    written = [];
  };
  left = 1;
}

-- "42" and a line feed
abbrev printed : List ℕ
printed = 52 ∷ 50 ∷ 10 ∷ []

abbrev next_line : ℕ → Disk → Option (List ℕ) × Disk
next_line zero w = (none, w)
next_line (suc left) w = (some printed, record w { left = left })

abbrev close_disk : Bool → Disk → Disk
close_disk true w = w
close_disk false w = record w { files = record w.files { target = w.files.written } }

abbrev opened : Disk → Disk
opened w = record w { files = record w.files { unread = w.files.source; past_end = false } }

abbrev disk : Stdio Disk
disk = record {
  access = λ file w. pos 0;
  fopen_rb = λ file w. (some 1, opened w);
  fopen_wb = λ file w. (some 2, record w { files = record w.files { target = []; written = [] } });
  fseek_end = λ fp w. w;
  fseek_start = λ fp w. w;
  ftell = λ fp w. pos (length w.files.source);
  fread = λ fp len w. (
    take len w.files.unread,
    record w {
      files = record w.files {
        unread = drop len w.files.unread;
        past_end = ltb (length w.files.unread) len;
      };
    },
  );
  fwrite = λ fp bytes w. record w { files = record w.files { written = w.files.written ++ bytes } };
  feof = λ fp w. w.files.past_end;
  fflush = λ fp w. w;
  fileno = λ fp w. pos fp;
  fsync = λ fd w. w;
  fclose = λ fp w. close_disk (fp == 1) w;
  popen = λ cmd w. (some 3, w);
  fgets = λ fp len w. next_line w.left w;
  pclose = λ fp w. w;
  readlink = λ w. none;
}

abbrev role_of : ℕ → Option Role
role_of fp = if fp == 1 then some reader else some writer

abbrev role_at : Option ℕ × Disk → Option Role
role_at (none, w) = none
role_at (some fp, w) = role_of fp

abbrev role_if : Bool → Option Role
role_if b = if b then some reader else some writer

closes_written :
    (b : Bool) (w : Disk)
    → role_if b ≡ some writer
    → (close_disk b w).files ≡ record w.files { target = w.files.written }
closes_written true w h = absurd (ground arith)
closes_written false w h = refl

closes_read : (b : Bool) (w : Disk) → role_if b ≡ some reader → (close_disk b w).files ≡ w.files
closes_read true w h = refl
closes_read false w h = absurd (ground arith)

abbrev disk_transfer : IsTransfer disk (1 ∷ []) (2 ∷ [])
disk_transfer = record {
  state = λ w. w.files;
  role = λ w fp. role_of fp;
  opens_rb = λ w fp w1 h. (ap role_at (sym h), ap (λ (r : Option ℕ × Disk). r.1.files) (sym h));
  opens_wb = λ w fp w1 h.
      (ap role_at (sym h), ap (λ (r : Option ℕ × Disk). r.1.files) (sym h), λ other k. k);
  feofs = λ fp w h. refl;
  freads = λ fp len w h. (refl, refl, refl);
  fwrites = λ fp bytes w h. (refl, refl);
  flushes = λ fp w. (refl, refl);
  closes_wb = λ fp w h. (closes_written (fp == 1) w h, λ other k. k);
  closes_rb = λ fp w h. closes_read (fp == 1) w h;
}

abbrev lines_left : ℕ → List (List ℕ)
lines_left n = replicate n printed

gives_line :
    (n : ℕ) (w : Disk) (line : List ℕ) (rest : List (List ℕ))
    → lines_left n ≡ line ∷ rest
    → ((next_line n w).0 ≡ some line)
      × (lines_left (next_line n w).1.left ≡ rest)
      × (until_nul line ≡ line)
      × (length line < 256)
gives_line zero w line rest h = absurd (let k = ap length h in omega arith)
gives_line (suc n) w line rest h =
    let same = head-eq_of_cons-eq h in
    (
      ap some same,
      tail-eq_of_cons-eq h,
      ap (λ (t : List ℕ). until_nul t) (sym same) ∙ same,
      let n = ap length same in omega arith,
    )

no_line : (n : ℕ) (w : Disk) → lines_left n ≡ [] → (next_line n w).0 ≡ none
no_line zero w h = refl
no_line (suc n) w h = absurd (let k = ap length h in omega arith)

abbrev disk_lines : GivesLines disk 3
disk_lines = record {
  lines = λ w. lines_left w.left;
  ends = λ w h. no_line w.left w h;
  gives = λ w line rest h. gives_line w.left w line rest h;
}

file_copy_content_lem_example :
    HasCopied disk
      (1 ∷ [])
      (2 ∷ [])
      disk_transfer
      (7 ∷ 8 ∷ 9 ∷ [])
      (file_copy_content disk 2 (1 ∷ []) (2 ∷ []) start)
file_copy_content_lem_example =
    file_copy_content_lem disk (1 ∷ []) (2 ∷ []) disk_transfer 2 1 2 start _ _ refl refl refl
      (omega arith)

file_read_to_buffer_lem_example :
    file_read_to_buffer disk (1 ∷ []) (0 ∷ 0 ∷ 0 ∷ 0 ∷ []) (pos 4) start
    ≡ some (pos 0, 7 ∷ 0 ∷ 0 ∷ 0 ∷ [], (disk.fread 1 1 (opened start)).1)
unfolding file_get_size to_int to_u64
file_read_to_buffer_lem_example =
    file_read_to_buffer_lem disk (1 ∷ []) (0 ∷ 0 ∷ 0 ∷ 0 ∷ []) (7 ∷ 8 ∷ 9 ∷ []) 4 1 start
      (opened start) refl refl (λ n. refl) (omega arith) (omega arith) (omega arith) (omega arith)

file_system_cmd_lem_example :
    Answers disk 3 disk_lines
      (52 ∷ 50 ∷ 10 ∷ 0 ∷ 1 ∷ [])
      (file_system_cmd disk 2 (112 ∷ 115 ∷ []) (1 ∷ 1 ∷ 1 ∷ 1 ∷ 1 ∷ []) (pos 5) start)
file_system_cmd_lem_example =
    file_system_cmd_lem disk 3 disk_lines (112 ∷ 115 ∷ []) (1 ∷ 1 ∷ 1 ∷ 1 ∷ 1 ∷ []) printed [] 1 5
      start start refl refl (omega arith) (omega arith) (omega arith)
