-- ===== src/Ipc/Mkdir.antt =====
-- ipc_competition/file_mkdir.c: fs_mkdirs and fs_create_file. A path is the list of its bytes.
use general_purpose_library.Prelude.{
  ℕ, Bool, true, false, Option, none, some, List, [], ◌∷◌, ◌++◌, ◌==◌, if◌then◌else◌, ℤ, pos,
  negsuc,
}
use general_purpose_library.Ipc.{
  Reply, gave, failed, link, directory, other, no_stat, System, error,
}

-- Whether a segment is "", "." or ".."
abbrev pub is_special : List ℕ → Bool
is_special [] = true
is_special (a ∷ []) = a == 46
is_special (a ∷ b ∷ []) = if a == 46 then b == 46 else false
is_special (a ∷ b ∷ c ∷ cs) = false

module _ {ℓ} {W : Type ℓ} (sys : System W) where
  -- Line 48 to 76: the segment is a directory afterwards, or there is an error to return.
  unfoldable pub make_segment : ℤ → List ℕ → W → Option ℤ × W
  make_segment fd segment w = elim (sys.fstatat fd segment w) [
    | no_stat e ↦ elim (e == sys.enoent) [
      | false ↦ (some (error e), w)
      | true ↦
          let (answer, w1) = sys.mkdirat fd segment w in
          elim answer [
            | none ↦ (none, w1)
            | some e1 ↦ (if e1 == sys.eexist then none else some (error e1), w1)
          ]
    ]
    | link ↦ (some (error sys.eloop), w)
    | directory ↦ (none, w)
    | other ↦ (some (error sys.enotdir), w)
  ]

  -- The loop at a byte of the path: `fd` is the directory reached, `segment` what was read since,
  -- and `skipping` tells whether the last byte was a slash that ended a segment. The error, if any,
  -- is the result.
  unfoldable pub walk : ℤ → Bool → List ℕ → List ℕ → W → ℤ × W
  walk fd skipping segment [] w = (pos 0, sys.close_file fd w)
  walk fd skipping segment (c ∷ cs) w = elim (c == 47) [
    | false ↦ walk fd false (segment ++ (c ∷ [])) cs w
    | true ↦ elim skipping [
      | true ↦ walk fd true segment cs w
      | false ↦ elim (is_special segment) [
        | true ↦ (error sys.einval, sys.close_file fd w)
        | false ↦
            let (answer, w1) = make_segment fd segment w in
            elim answer [
              | some e ↦ (e, sys.close_file fd w1)
              | none ↦
                  let (answer, w2) = sys.openat fd segment w1 in
                  elim answer [
                    | failed e ↦ (error e, sys.close_file fd w2)
                    | gave next_fd ↦ walk next_fd true [] cs (sys.close_file fd w2)
                  ]
            ]
      ]
    ]
  ]

  abbrev pub started : List ℕ → Reply × W → ℤ × W
  started path (failed e, w) = (error e, w)
  started path (gave fd, w) = walk fd false [] path w

  abbrev pub from_root : List ℕ → W → ℤ × W
  from_root path w = started path (sys.open_root w)

  unfoldable pub fs_mkdirs : List ℕ → W → ℤ × W
  fs_mkdirs [] w = (error sys.einval, w)
  fs_mkdirs (c ∷ cs) w = elim (c == 47) [ true ↦ from_root cs w | false ↦ (error sys.einval, w) ]

  -- On success there is no `return`, so there is no result.
  unfoldable pub fs_create_file : List ℕ → W → Option ℤ × W
  fs_create_file name w =
      let (answer, w1) = sys.creat name w in
      elim answer [ failed e ↦ (some (negsuc 0), w1) | gave fd ↦ (none, sys.close_file fd w1) ]
