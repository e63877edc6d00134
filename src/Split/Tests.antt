-- ===== src/Split/Tests.antt =====
-- An image of 100 by 50, cut in three, and the theorems on it.
use general_purpose_library.Prelude.{arith, true, some}
use general_purpose_library.Split.{Image, split_width, split_multiple_image_horizontal_scan}
use general_purpose_library.Split.Tiles.{IsTile, columns-Tile}

abbrev image : Image
image = record { addr = 4096; width = 100; height = 50; stride = 128 }

columns-Tile_example :
    IsTile
      (split_multiple_image_horizontal_scan (some image) true 3 split_width 16)
      3
      2
      32
      100
      16
      (record image { addr = 4160; width = 32 })
columns-Tile_example =
    columns-Tile image 3 16 2 (omega arith) (omega arith) (omega arith) (omega arith) (omega arith)
