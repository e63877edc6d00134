-- ===== src/Split/Tiles.antt =====
-- Where the tiles lie.
use general_purpose_library.Prelude.{
  ℕ, zero, suc, ◌+◌, ◌*◌, ◌/◌, ◌%◌, ◌^◌, ◌≤◌, ◌<◌, ◌≡◌, refl, ap, ◌∙◌, length, arith, true, Option,
  some, List, get_elem?, ℤ, pos,
}
use native.Mathlib.Nat.{mul-le-mul_left, mul-le-mul_right, div-mul-le_self, mul-mod_left}
use general_purpose_library.Split.{
  Image, split_width, split_height, tile_size, fill_tiles, answer, horizontal_column,
  horizontal_row, split_multiple_image_horizontal_scan,
}

size_fits : (extent num align : ℕ) → extent / num / align * align * num ≤ extent
size_fits extent num align =
    let a : extent / num / align * align ≤ extent / num = div-mul-le_self (extent / num) align in
    let b : extent / num / align * align * num ≤ extent / num * num = mul-le-mul_right num a in
    let c : extent / num * num ≤ extent = div-mul-le_self extent num in omega arith

tile_size_lem :
    (extent num align : ℕ)
    → 0 < num
    → 0 < align
    → extent < 2 ^ 32
    → tile_size extent num align ≡ some (extent / num / align * align)
unfolding tile_size
tile_size_lem extent num align h k small =
    let size = extent / num / align * align in
    let once : size * 1 ≤ size * num = mul-le-mul_left size h in
    let fits = size_fits extent num align in
    let same : size % 2 ^ 32 ≡ size = omega arith in rw same (ground arith)

nth_tile :
    (tile : ℕ → Image) (n i k : ℕ) → k < n → get_elem? (fill_tiles tile n i) k ≡ some (tile (i + k))
unfolding fill_tiles
nth_tile tile zero i k h = absurd (omega arith)
nth_tile tile (suc n) i zero h = ap (λ (j : ℕ). some (tile j)) (omega arith)
nth_tile tile (suc n) i (suc k) h =
    nth_tile tile n (i + 1) k (omega arith) ∙ ap (λ (j : ℕ). some (tile j)) (omega arith)

length-fill_tiles : (tile : ℕ → Image) (n i : ℕ) → length (fill_tiles tile n i) ≡ n
unfolding fill_tiles
length-fill_tiles tile zero i = refl
length-fill_tiles tile (suc n) i = ap suc (length-fill_tiles tile n (i + 1))

-- `num` tiles are `made`; tile `k` of them is `expected`, and it ends within the extent.
pub record IsTile (made : Option (ℤ × List Image)) (num k size extent align : ℕ) (expected : Image)
    : Type 0 where
  pub tiles : List Image
  pub returned : made ≡ some (pos 0, tiles)
  pub count : length tiles ≡ num
  pub at_index : get_elem? tiles k ≡ some expected
  pub inside : (k + 1) * size ≤ extent
  pub aligned : size % align ≡ 0

tile_inside : (extent num align k : ℕ) → k < num → (k + 1) * (extent / num / align * align) ≤ extent
tile_inside extent num align k before =
    let size = extent / num / align * align in
    let some_tiles : (k + 1) * size ≤ num * size = mul-le-mul_right size (omega arith) in
    let all = size_fits extent num align in
    let swap : num * size ≡ size * num = omega arith in omega arith

-- For positive num and align and an address range that does not wrap, the horizontal scan cut by
-- width makes num tiles with the same width, a multiple of align: tile k starts k widths after the
-- source and ends within its width.
pub columns-Tile :
    (src : Image) (num align k : ℕ)
    → 0 < num
    → 0 < align
    → k < num
    → src.width < 2 ^ 32
    → src.addr + src.width < 2 ^ 64
    → let size = src.width / num / align * align in
      IsTile
        (split_multiple_image_horizontal_scan (some src) true num split_width align)
        num
        k
        size
        src.width
        align
        (record src { addr = src.addr + k * size; width = size })
unfolding split_multiple_image_horizontal_scan
columns-Tile src num align k h a before small room =
    let size = src.width / num / align * align in
    let inside = tile_inside src.width num align k before in
    let next : (k + 1) * size ≡ k * size + size = omega arith in
    let offset : k * size % 2 ^ 32 ≡ k * size = omega arith in
    let address : (src.addr + k * size) % 2 ^ 64 ≡ src.addr + k * size = omega arith in
    record {
      tiles = fill_tiles (horizontal_column src size) num 0;
      returned =
          ap (answer (horizontal_column src) num) (tile_size_lem src.width num align h a small);
      count = length-fill_tiles (horizontal_column src size) num 0;
      at_index =
          nth_tile (horizontal_column src size) num 0 k before
          ∙ ap (λ (x : ℕ). some (record src { addr = x; width = size }))
              (ap (λ (j : ℕ). (src.addr + j * size % 2 ^ 32) % 2 ^ 64) (omega arith)
                ∙ ap (λ (x : ℕ). (src.addr + x) % 2 ^ 64) offset
                ∙ address);
      inside = inside;
      aligned = mul-mod_left (src.width / num / align) align;
    }

-- For positive num and align, and where the bytes of the image are fewer than 2^32 and their
-- address range does not wrap, the horizontal scan cut by height makes num tiles with the same
-- height, a multiple of align: tile k starts k times that many strides after the source and ends
-- within its height.
pub rows-Tile :
    (src : Image) (num align k : ℕ)
    → 0 < num
    → 0 < align
    → k < num
    → src.height < 2 ^ 32
    → src.stride * src.height < 2 ^ 32
    → src.addr + src.stride * src.height < 2 ^ 64
    → let size = src.height / num / align * align in
      IsTile
        (split_multiple_image_horizontal_scan (some src) true num split_height align)
        num
        k
        size
        src.height
        align
        (record src { addr = src.addr + src.stride * (k * size); height = size })
unfolding split_multiple_image_horizontal_scan
rows-Tile src num align k h a before small rows room =
    let size = src.height / num / align * align in
    let inside = tile_inside src.height num align k before in
    let next : (k + 1) * size ≡ k * size + size = omega arith in
    let bytes : src.stride * (k * size) ≤ src.stride * src.height =
      mul-le-mul_left src.stride (omega arith) in
    let product : k * src.stride * size ≡ src.stride * (k * size) = omega arith in
    let offset : k * src.stride * size % 2 ^ 32 ≡ src.stride * (k * size) = omega arith in
    let address : (src.addr + src.stride * (k * size)) % 2 ^ 64
        ≡ src.addr + src.stride * (k * size) =
      omega arith in
    record {
      tiles = fill_tiles (horizontal_row src size) num 0;
      returned =
          ap (answer (horizontal_row src) num) (tile_size_lem src.height num align h a small);
      count = length-fill_tiles (horizontal_row src size) num 0;
      at_index =
          nth_tile (horizontal_row src size) num 0 k before
          ∙ ap (λ (x : ℕ). some (record src { addr = x; height = size }))
              (ap (λ (j : ℕ). (src.addr + j * src.stride * size % 2 ^ 32) % 2 ^ 64) (omega arith)
                ∙ ap (λ (x : ℕ). (src.addr + x) % 2 ^ 64) offset
                ∙ address);
      inside = inside;
      aligned = mul-mod_left (src.height / num / align) align;
    }
