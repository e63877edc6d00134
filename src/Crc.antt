-- ===== src/Crc.antt =====
-- linux/utils/src/crc32.c: the table routines. A buffer is the list of the bytes behind the
-- pointer; `none` is a read out of range, which C leaves undefined.
pub mod Table
pub mod Serial
pub mod Routines
mod Tests
use general_purpose_library.Prelude.{
  ◌>>=◌, ℕ, zero, suc, ◌+◌, ◌-◌, ◌/◌, ◌^◌, Bool, true, false, not, Option, none, some, List, [],
  ◌∷◌, ◌==◌, if◌then◌else◌, get_elem?, set, replicate, ℤ, pos,
}
use general_purpose_library.Prelude.Bits.{bit_xor, bit_and}

abbrev pub polynomial : ℕ
polynomial = 0xedb88320

-- the body of the inner loop: `if (c & 1) c = poly ^ (c >> 1); else c = c >> 1;`
pub table_step : ℕ → ℕ
table_step c = if not (bit_and c 1 == 0) then bit_xor polynomial (c / 2) else c / 2

-- the inner loop, with `n` rounds left
pub shift_rounds : ℕ → ℕ → ℕ
shift_rounds zero c = c
shift_rounds (suc n) c = shift_rounds n (table_step c)

-- the outer loop at index `i`, with `n` rounds left
pub fill_table : ℕ → ℕ → List ℕ → List ℕ
fill_table zero i table = table
fill_table (suc n) i table = fill_table n (i + 1) (set table i (shift_rounds 8 i))

-- the file's static array, before it is filled
abbrev pub static_table : List ℕ
static_table = replicate 256 0

pub init_crc_table : List ℕ → List ℕ
init_crc_table crc_table = fill_table 256 0 crc_table

-- the loop of `crc32` at index `i`, with `n` rounds left
pub crc32_loop : List ℕ → List ℕ → ℕ → ℕ → ℕ → Option ℕ
crc32_loop table buffer zero i crc = some crc
crc32_loop table buffer (suc n) i crc = do
  octet ← get_elem? buffer i
  entry ← get_elem? table (bit_and (bit_xor crc octet) 0xff)
  crc32_loop table buffer n (i + 1) (bit_xor entry (crc / 2 ^ 8))

pub crc32 : (crc_table : List ℕ) → ℕ → List ℕ → ℕ → Option ℕ
crc32 crc_table crc buffer size = crc32_loop crc_table buffer size 0 crc

pub calc_crc : (crc_table : List ℕ) → List ℕ → ℕ → Option ℕ
calc_crc crc_table buf size = crc32 crc_table 0xffffffff buf size

-- `~x` on an `unsigned int`
abbrev pub complement : ℕ → ℕ
complement x = 2 ^ 32 - 1 - x

-- `rem >>= 1; rem ^= poly`
pub lut_step : ℕ → ℕ
lut_step rem = if not (bit_and rem 1 == 0) then bit_xor (rem / 2) polynomial else rem / 2

pub lut_rounds : ℕ → ℕ → ℕ
lut_rounds zero rem = rem
lut_rounds (suc n) rem = lut_rounds n (lut_step rem)

pub lut_fill : ℕ → ℕ → List ℕ → List ℕ
lut_fill zero i table = table
lut_fill (suc n) i table = lut_fill n (i + 1) (set table i (lut_rounds 8 i))

pub lut_loop : List ℕ → List ℕ → ℕ → ℕ → ℕ → Option ℕ
lut_loop table buf zero p crc = some crc
lut_loop table buf (suc n) p crc = do
  octet ← get_elem? buf p
  entry ← get_elem? table (bit_xor (bit_and crc 0xff) octet)
  lut_loop table buf n (p + 1) (bit_xor (crc / 2 ^ 8) entry)

-- `stack` is what the local array `table` holds on entry; `have_table` is local too, so the table
-- is computed at every call.
pub lut_crc32 : (stack : List ℕ) → ℕ → List ℕ → ℕ → Option ℕ
lut_crc32 stack crc buf len =
    lut_loop (lut_fill 256 0 stack) buf len 0 (complement crc) >>= λ c. some (complement c)

-- `allocated` says whether `calloc` returns memory, which it sets to zero.
pub crc32_alloc_init_table : (allocated : Bool) → Option (List ℕ)
crc32_alloc_init_table allocated =
    if allocated then some (fill_table 256 0 (replicate 256 0)) else none

pub crc32_get : (table : List ℕ) → List ℕ → ℕ → Option ℕ
crc32_get table buf size = crc32_loop table buf size 0 0xffffffff >>= λ crc. some (complement crc)

-- The addresses handed to `free`, and the result.
pub crc32_destroy : Option ℕ → List ℕ × ℤ
crc32_destroy none = ([], pos 0)
crc32_destroy (some table) = (table ∷ [], pos 0)
