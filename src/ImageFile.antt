-- ===== src/ImageFile.antt =====
-- linux/utils/src/image_file.c: the rows of a frame, read from a file or written to it. A buffer is its
-- bytes, `W` the state behind the stream, and `none` a read or a write outside the buffer.
pub mod Places
pub mod Frames
mod Tests
use general_purpose_library.Prelude.{
  ◌>>=◌, ℕ, zero, suc, ◌+◌, Bool, true, false, Option, none, some, List, [], ◌∷◌, ◌==◌, leb,
  if◌then◌else◌, ℤ, pos, pos_part, length, take, drop, to_u64, ◌+ℤ◌,
}
use general_purpose_library.FileUtils.{store}

-- fread and fwrite of one item of a size: how many items were moved, and the bytes that were stored
pub record Stream {ℓ} (W : Type ℓ) : Type ℓ where
  pub fread : ℕ → W → ℕ × List ℕ × W
  pub fwrite : List ℕ → W → ℕ × W

-- fops_func: one item between the buffer, at a place, and the stream
abbrev pub FopsFunc {ℓ} : Type ℓ → Type ℓ
FopsFunc W = ℕ → ℕ → List ℕ → W → Option (ℕ × List ℕ × W)

module _ {ℓ} {W : Type ℓ} (io : Stream W) where
  abbrev pub stored_at : ℕ → List ℕ → ℕ × List ℕ × W → Option (ℕ × List ℕ × W)
  stored_at place buffer (ret, bytes, w) = do b ← store buffer place bytes; some (ret, b, w)

  abbrev pub read_item : FopsFunc W
  read_item place size buffer w = stored_at place buffer (io.fread size w)

  abbrev pub kept_buffer : List ℕ → ℕ × W → ℕ × List ℕ × W
  kept_buffer buffer (ret, w) = (ret, buffer, w)

  abbrev pub write_item : FopsFunc W
  write_item place size buffer w =
      if leb (place + size) (length buffer)
      then some (kept_buffer buffer (io.fwrite (take size (drop place buffer)) w))
      else none

module _ {ℓ} {W : Type ℓ} (rw_ops : FopsFunc W) (width stride : ℕ) where
  -- The loop over the rows that are left; a row that is not moved whole ends it.
  pub rw_rows : ℕ → ℕ → List ℕ → W → Option (List ℕ × W)
  rw_rows zero place buffer w = some (buffer, w)
  rw_rows (suc rows) place buffer w = elim (rw_ops place width buffer w) [
    | none ↦ none
    | some r ↦
        let (ret, b, w1) = r in
        elim (ret == 1) [ true ↦ rw_rows rows (place + stride) b w1 | false ↦ some (b, w1) ]
  ]

abbrev pub finished {ℓ} : {W : Type ℓ} → Option (List ℕ × W) → Option (ℤ × List ℕ × W)
finished none = none
finished (some (buffer, w)) = some (pos 0, buffer, w)

-- For a stride that is not negative; a negative width is a size beyond any buffer.
pub image_file_rw_one_frame {ℓ} :
    {W : Type ℓ} → List ℕ → ℤ → ℤ → ℕ → FopsFunc W → W → Option (ℤ × List ℕ × W)
image_file_rw_one_frame buffer width height stride rw_ops w =
    finished (rw_rows rw_ops (to_u64 width) stride (pos_part height) 0 buffer w)

module _ {ℓ} {W : Type ℓ} (io : Stream W) where
  pub image_file_read_one_frame : List ℕ → ℤ → ℤ → ℕ → W → Option (ℤ × List ℕ × W)
  image_file_read_one_frame buffer width height stride w =
      image_file_rw_one_frame buffer width height stride (read_item io) w

  pub image_file_write_one_frame : List ℕ → ℤ → ℤ → ℕ → W → Option (ℤ × List ℕ × W)
  image_file_write_one_frame buffer width height stride w =
      image_file_rw_one_frame buffer width height stride (write_item io) w
