-- ===== src/Crc/Tests.antt =====
-- The check values of CRC-32 and of its uncomplemented form, and the theorems at that message.
use general_purpose_library.Prelude.{
  ℕ, ◌≡◌, refl, arith, true, none, some, List, [], ◌∷◌, ◌++◌, take, pos,
}
use general_purpose_library.Crc.{
  static_table, fill_table, table_step, shift_rounds, crc32_loop, init_crc_table, crc32, calc_crc,
  complement, lut_crc32, crc32_alloc_init_table, crc32_get, crc32_destroy,
}
use general_purpose_library.Crc.Serial.{serial, serial_bits, serial_bit}
use general_purpose_library.Crc.Routines.{
  IsBytes, bytes_of, crc32-serial, calc_crc_check, lut_crc32-crc32_get,
}

-- "123456789"
abbrev digits : List ℕ
digits = 49 ∷ 50 ∷ 51 ∷ 52 ∷ 53 ∷ 54 ∷ 55 ∷ 56 ∷ 57 ∷ []

abbrev table : List ℕ
table = fill_table 256 0 static_table

serial_check : complement (serial 0xffffffff digits) ≡ 0xcbf43926
unfolding serial serial_bits serial_bit
serial_check = refl

destroy_frees : (crc32_destroy (some 7) ≡ (7 ∷ [], pos 0)) × (crc32_destroy none ≡ ([], pos 0))
unfolding crc32_destroy
destroy_frees = (refl, refl)

-- The table routine itself, run on the same message.
get_check : crc32_get (fill_table 256 0 static_table) digits 9 ≡ some 0xcbf43926
unfolding crc32_get crc32_loop fill_table shift_rounds table_step
get_check = refl

table_made : crc32_alloc_init_table true ≡ some table
unfolding crc32_alloc_init_table
table_made = refl

digits-IsBytes : IsBytes digits
digits-IsBytes = omega arith

crc32-serial_example :
    crc32 (init_crc_table static_table) 0 digits 4 ≡ some (serial 0 (take 4 digits))
crc32-serial_example = crc32-serial static_table 0 digits 4 refl digits-IsBytes (omega arith)

calc_crc_check_example :
    (c : ℕ) × (calc_crc (init_crc_table static_table) digits 9 ≡ some c)
    × (calc_crc (init_crc_table static_table) (digits ++ bytes_of c) 13 ≡ some 0)
calc_crc_check_example = calc_crc_check static_table digits refl digits-IsBytes

lut_crc32-crc32_get_example : lut_crc32 static_table 0 digits 9 ≡ crc32_get table digits 9
lut_crc32-crc32_get_example =
    lut_crc32-crc32_get static_table table digits 9 refl table_made digits-IsBytes (omega arith)
