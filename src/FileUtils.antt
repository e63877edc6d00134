-- ===== src/FileUtils.antt =====
-- linux/utils/src/file_utils.c: whole files, and what a command prints. The calls of stdio are the
-- fields of `Stdio`, over a state `W`; a stream is a number, and a name and a text are their bytes.
-- `none` is a read or a write outside a buffer, or a loop that is out of rounds.
pub mod Copy
pub mod Buffer
pub mod Command
pub mod Process
pub mod Running
mod Tests
use general_purpose_library.Prelude.{
  ◌>>=◌, ℕ, zero, suc, ◌+◌, ◌-◌, ◌^◌, Bool, true, false, Option, none, some, List, [], ◌∷◌, ◌++◌,
  ◌==◌, ltb, leb, if◌then◌else◌, ℤ, pos, negsuc, ltb_ℤ, eqb_ℤ, to_u64, to_int, length, take, drop,
}
use general_purpose_library.Decimal.{until_nul}

-- fread answers the bytes that it stores, and fgets the line without its terminator.
pub record Stdio {ℓ} (W : Type ℓ) : Type ℓ where
  pub access : List ℕ → W → ℤ
  pub fopen_rb : List ℕ → W → Option ℕ × W
  pub fopen_wb : List ℕ → W → Option ℕ × W
  pub fseek_end : ℕ → W → W
  pub fseek_start : ℕ → W → W
  pub ftell : ℕ → W → ℤ
  pub fread : ℕ → ℕ → W → List ℕ × W
  pub fwrite : ℕ → List ℕ → W → W
  pub feof : ℕ → W → Bool
  pub fflush : ℕ → W → W
  pub fileno : ℕ → W → ℤ
  pub fsync : ℤ → W → W
  pub fclose : ℕ → W → W
  pub popen : List ℕ → W → Option ℕ × W
  pub fgets : ℕ → ℕ → W → Option (List ℕ) × W
  pub pclose : ℕ → W → W
  pub readlink : W → Option (List ℕ)

abbrev pub read_buf_max_len : ℕ
read_buf_max_len = 1024

-- A store of bytes at a place of a buffer
abbrev pub store : List ℕ → ℕ → List ℕ → Option (List ℕ)
store buffer offset bytes =
    if leb (offset + length bytes) (length buffer)
    then some (take offset buffer ++ (bytes ++ drop (offset + length bytes) buffer))
    else none

-- `size < len ? : len`
abbrev pub read_size : ℤ → ℤ → ℤ
read_size size len = if ltb_ℤ size len then pos 1 else len

module _ {ℓ} {W : Type ℓ} (io : Stdio W) where
  pub file_get_size : ℕ → W → ℤ × W
  file_get_size fp w = let w1 = io.fseek_end fp w in (to_int (io.ftell fp w1), io.fseek_start fp w1)

  abbrev pub closing : ℕ → ℤ × W → ℤ × W
  closing fp (size, w) = (size, io.fclose fp w)

  abbrev pub size_of_opened : Option ℕ × W → ℤ × W
  size_of_opened (none, w) = (negsuc 0, w)
  size_of_opened (some fp, w) = closing fp (file_get_size fp w)

  unfoldable pub file_get_size_by_path : List ℕ → W → ℤ × W
  file_get_size_by_path path w = size_of_opened (io.fopen_rb path w)

  -- What is stored in the buffer, which the file is read into from its start
  abbrev pub stored : ℕ → List ℕ → List ℕ × W → Option (ℤ × List ℕ × W)
  stored fp buffer (bytes, w) = do b ← store buffer 0 bytes; some (pos 0, b, io.fclose fp w)

  abbrev pub read_opened : List ℕ → ℤ → Option ℕ × W → Option (ℤ × List ℕ × W)
  read_opened buffer len (none, w) = some (negsuc 0, buffer, w)
  read_opened buffer len (some fp, w) =
      let (size, w1) = file_get_size fp w in
      stored fp buffer (io.fread fp (to_u64 (read_size size len)) w1)

  pub file_read_to_buffer : List ℕ → List ℕ → ℤ → W → Option (ℤ × List ℕ × W)
  file_read_to_buffer name buffer len w = read_opened buffer len (io.fopen_rb name w)

  abbrev pub synced : ℕ → W → W
  synced fp w = let fd = io.fileno fp w in if eqb_ℤ fd (negsuc 0) then w else io.fsync fd w

  abbrev pub write_opened : List ℕ → ℤ → Option ℕ × W → Option (ℤ × W)
  write_opened buffer len (none, w) = some (negsuc 0, w)
  write_opened buffer len (some fp, w) =
      let n = to_u64 len in
      if leb n (length buffer)
      then some (pos 0, io.fclose fp (synced fp (io.fflush fp (io.fwrite fp (take n buffer) w))))
      else none

  unfoldable pub file_write_from_buffer : List ℕ → List ℕ → ℤ → W → Option (ℤ × W)
  file_write_from_buffer name buffer len w = write_opened buffer len (io.fopen_wb name w)

  abbrev pub copy_block : ℕ → ℕ → W → W
  copy_block src dst w = let (bytes, w1) = io.fread src read_buf_max_len w in io.fwrite dst bytes w1

  -- The loop until the end of the source, with rounds left
  pub copy_blocks : ℕ → ℕ → ℕ → W → Option W
  copy_blocks zero src dst w = none
  copy_blocks (suc rounds) src dst w = elim (io.feof src w) [
    | true ↦ some w
    | false ↦ copy_blocks rounds src dst (copy_block src dst w)
  ]

  abbrev pub copy_opened : ℕ → ℕ → Option ℕ × W → Option (ℤ × W)
  copy_opened rounds src (none, w) = some (negsuc 0, io.fclose src w)
  copy_opened rounds src (some dst, w) = do
    w1 ← copy_blocks rounds src dst w
    some (pos 0, io.fclose src (io.fclose dst (io.fflush dst w1)))

  abbrev pub copy_from : ℕ → List ℕ → Option ℕ × W → Option (ℤ × W)
  copy_from rounds dst_file (none, w) = some (negsuc 0, w)
  copy_from rounds dst_file (some src, w) = copy_opened rounds src (io.fopen_wb dst_file w)

  pub file_copy_content : ℕ → List ℕ → List ℕ → W → Option (ℤ × W)
  file_copy_content rounds src_file dst_file w =
      if eqb_ℤ (io.access src_file w) (pos 0)
      then copy_from rounds dst_file (io.fopen_rb src_file w)
      else some (negsuc 0, w)

  -- Whether `offset + len >= size`, for counts below 2^31
  abbrev pub is_full : ℕ → ℕ → ℤ → Bool
  is_full offset len size = if ltb_ℤ (pos (offset + len)) size then false else true

  -- The loop over the lines, with rounds left
  pub read_lines : ℕ → ℕ → List ℕ → ℕ → ℤ → W → Option (List ℕ × W)
  read_lines zero fp buf offset size w = none
  read_lines (suc rounds) fp buf offset size w =
      let (line, w1) = io.fgets fp 256 w in
      elim line [
        | none ↦ some (buf, w1)
        | some bytes ↦
            let tmp = until_nul bytes in
            let len = length tmp in
            elim (is_full offset len size) [
              | true ↦ do b ← store buf offset (0 ∷ []); some (b, w1)
              | false ↦ do
                b ← store buf offset (tmp ++ (0 ∷ []))
                read_lines rounds fp b (offset + len) size w1
            ]
      ]

  abbrev pub closing_command : ℕ → Option (List ℕ × W) → Option (Bool × List ℕ × W)
  closing_command fp none = none
  closing_command fp (some (b, w)) = some (true, b, io.pclose fp w)

  abbrev pub read_command : ℕ → List ℕ → ℤ → Option ℕ × W → Option (Bool × List ℕ × W)
  read_command rounds buf size (none, w) = some (false, buf, w)
  read_command rounds buf size (some fp, w) = closing_command fp (read_lines rounds fp buf 0 size w)

  -- Whether the answer is `buf` and not NULL, and what `buf` holds
  pub file_system_cmd : ℕ → List ℕ → List ℕ → ℤ → W → Option (Bool × List ℕ × W)
  file_system_cmd rounds cmd buf size w = read_command rounds buf size (io.popen cmd w)
