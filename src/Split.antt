-- ===== src/Split.antt =====
-- linux/utils/src/image_split.c: an image cut into tiles of equal size. Offsets are computed as
-- uint32_t and added to an address of 64 bits; `none` is a division by 0. `num` and `align` are what
-- callers pass, not negative; `dst` is whether there is an array for the tiles.
pub mod Tiles
mod Tests
use general_purpose_library.Prelude.{
  ℕ, zero, suc, ◌+◌, ◌*◌, ◌/◌, ◌%◌, ◌^◌, Bool, true, false, ◌||◌, Option, none, some, List, [], ◌∷◌,
  ◌==◌, if◌then◌else◌, ℤ, pos, negsuc,
}

-- split_image_t
pub record Image : Type 0 where
  pub addr : ℕ
  pub width : ℕ
  pub height : ℕ
  pub stride : ℕ

-- split_dir_e
pub data SplitDir : Type 0 where
  split_width split_height : SplitDir

-- `((extent / num) / align) * align`
pub tile_size : ℕ → ℕ → ℕ → Option ℕ
tile_size extent num align =
    if num == 0 || align == 0 then none else some (extent / num / align * align % 2 ^ 32)

-- The loop over `dst`, from tile `i` with `n` tiles left
pub fill_tiles : (ℕ → Image) → ℕ → ℕ → List Image
fill_tiles tile zero i = []
fill_tiles tile (suc n) i = tile i ∷ fill_tiles tile n (i + 1)

abbrev pub answer : (ℕ → ℕ → Image) → ℕ → Option ℕ → Option (ℤ × List Image)
answer tile num none = none
answer tile num (some size) = some (pos 0, fill_tiles (tile size) num 0)

abbrev pub tile_addr : Image → ℕ → ℕ
tile_addr src offset = (src.addr + offset % 2 ^ 32) % 2 ^ 64

abbrev pub horizontal_column : Image → ℕ → ℕ → Image
horizontal_column src width i = record src { addr = tile_addr src (i * width); width = width }

abbrev pub horizontal_row : Image → ℕ → ℕ → Image
horizontal_row src height i = record src {
  addr = tile_addr src (i * src.stride * height);
  height = height;
}

abbrev pub vertical_column : Image → ℕ → ℕ → Image
vertical_column src width i = record src {
  addr = tile_addr src (i * width * src.stride);
  width = width;
}

abbrev pub vertical_row : Image → ℕ → ℕ → Image
vertical_row src height i = record src {
  addr = tile_addr src (i * src.width * height);
  height = height;
}

pub split_multiple_image_horizontal_scan :
    Option Image → (dst : Bool) → ℕ → SplitDir → ℕ → Option (ℤ × List Image)
split_multiple_image_horizontal_scan none dst num split_dir align = some (negsuc 0, [])
split_multiple_image_horizontal_scan (some src) false num split_dir align = some (negsuc 0, [])
split_multiple_image_horizontal_scan (some src) true num split_width align =
    answer (horizontal_column src) num (tile_size src.width num align)
split_multiple_image_horizontal_scan (some src) true num split_height align =
    answer (horizontal_row src) num (tile_size src.height num align)

unfoldable pub split_multiple_image_vertical_scan :
    Option Image → (dst : Bool) → ℕ → SplitDir → ℕ → Option (ℤ × List Image)
split_multiple_image_vertical_scan none dst num split_dir align = some (negsuc 0, [])
split_multiple_image_vertical_scan (some src) false num split_dir align = some (negsuc 0, [])
split_multiple_image_vertical_scan (some src) true num split_width align =
    answer (vertical_column src) num (tile_size src.width num align)
split_multiple_image_vertical_scan (some src) true num split_height align =
    answer (vertical_row src) num (tile_size src.height num align)
