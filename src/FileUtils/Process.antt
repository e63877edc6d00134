-- ===== src/FileUtils/Process.antt =====
-- The routines of linux/utils/src/file_utils.c that ask for processes. The buffers are arrays of
-- bytes, and `none` is a write or a read outside one, or a loop that is out of rounds.
use general_purpose_library.Prelude.{
  ◌>>=◌, ℕ, Bool, true, false, Option, none, some, List, [], ◌∷◌, ◌++◌, ◌==◌, ltb, if◌then◌else◌, ℤ,
  pos, to_u64, length, take, replicate,
}
use general_purpose_library.Decimal.{scan_signed, until_nul}
use general_purpose_library.FileUtils.{Stdio, store, file_system_cmd}

-- "ps | grep "
abbrev pub ps_grep : List ℕ
ps_grep = 112 ∷ 115 ∷ 32 ∷ 124 ∷ 32 ∷ 103 ∷ 114 ∷ 101 ∷ 112 ∷ 32 ∷ []

-- " | grep -v grep |wc -l"
abbrev pub count_lines : List ℕ
count_lines =
    32 ∷ 124 ∷ 32 ∷ 103 ∷ 114 ∷ 101 ∷ 112 ∷ 32 ∷ 45 ∷ 118 ∷ 32 ∷ 103 ∷ 114 ∷ 101 ∷ 112 ∷ 32 ∷ 124
    ∷ 119 ∷ 99 ∷ 32 ∷ 45 ∷ 108 ∷ []

abbrev pub process_command : List ℕ → List ℕ
process_command name = ps_grep ++ (name ++ count_lines)

-- The part after the last '/'
abbrev pub after_slash : List ℕ → Option (List ℕ)
after_slash [] = none
after_slash (c ∷ cs) = elim (after_slash cs) [
  | some name ↦ some name
  | none ↦ if c == 47 then some cs else none
]

-- `MIN(len, strlen(ptr))`, where `len` is taken as a size_t
abbrev pub copy_len : ℤ → ℕ → ℕ
copy_len len n = if ltb n (to_u64 len) then n else to_u64 len

-- What is answered is `name` or an empty string, and what `name` holds.
abbrev pub copy_name : List ℕ → ℤ → Option (List ℕ) → Option (Bool × List ℕ)
copy_name name len none = some (false, name)
copy_name name len (some ptr) = do
  b ← store name 0 (take (copy_len len (length ptr)) ptr)
  some (true, b)

-- The buffer has no terminator where the path fills it.
abbrev pub name_of_path : List ℕ → ℤ → Option (List ℕ) → Option (Bool × List ℕ)
name_of_path name len none = some (false, name)
name_of_path name len (some path) =
    if ltb (length path) 128 then copy_name name len (after_slash (until_nul path)) else none

module _ {ℓ} {W : Type ℓ} (io : Stdio W) where
  abbrev pub succeeds : Option (Bool × List ℕ × W) → Option (ℤ × W)
  succeeds none = none
  succeeds (some (ok, buf, w)) = some (pos 0, w)

  unfoldable pub file_system : ℕ → List ℕ → W → Option (ℤ × W)
  file_system rounds command w =
      succeeds (file_system_cmd io rounds command (replicate 1024 0) (pos 1024) w)

  abbrev pub counted : Option (Bool × List ℕ × W) → Option (ℤ × W)
  counted none = none
  counted (some (ok, buf, w)) = some (scan_signed (pos 0) (until_nul buf), w)

  unfoldable pub file_is_process_running : ℕ → List ℕ → W → Option (ℤ × W)
  file_is_process_running rounds name w =
      let cmd = process_command name in
      if ltb (length cmd) 128
      then counted (file_system_cmd io rounds cmd (replicate 1024 0) (pos 1024) w)
      else none

  unfoldable pub file_get_process_name : List ℕ → ℤ → W → Option (Bool × List ℕ)
  file_get_process_name name len w = name_of_path name len (io.readlink w)
