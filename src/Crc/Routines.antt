-- ===== src/Crc/Routines.antt =====
-- What the CRC routines return, by the bit-serial reference.
use general_purpose_library.Prelude.{
  ℕ, zero, suc, ◌+◌, ◌/◌, ◌%◌, ◌^◌, ◌≤◌, ◌<◌, ◌≡◌, refl, sym, ap, ◌∙◌, arith, none, some, List, [],
  ◌∷◌, ◌++◌, length, get_or, get_elem?, get_elem?-eq-get_or, get_elem?-none, take, drop,
  take-drop_step, take-length, All, All-get_or, All-append, replicate, true, Option-cases, inl, inr,
}
use mathlib.Core.Option.{some-injective}
use native.Mathlib.Decide.{dec_lt}
use general_purpose_library.Prelude.Bits.{bit_xor, bit_and, bit_xor_comm, bit_xor_mod, bit_and_low8}
use general_purpose_library.Crc.{
  ◌>>=◌, shift_rounds, fill_table, init_crc_table, crc32_loop, crc32, calc_crc, complement,
  lut_loop, lut_crc32, crc32_alloc_init_table, crc32_get,
}
use general_purpose_library.Crc.Table.{filled-entry, lut_fill-eq-fill_table}
use general_purpose_library.Crc.Serial.{
  serial, serial_bits, serial_byte, serial_own_byte, serial-append, serial-lt,
}

abbrev pub IsBytes : List ℕ → Type 0
IsBytes bytes = All (λ b. b < 256) bytes

module _ (t : List ℕ) (size : length t ≡ 256) where
  low_index :
      (crc byte : ℕ) → byte < 256 → bit_and (bit_xor crc byte) 255 ≡ bit_xor (crc % 256) byte
  low_index crc byte h =
      let low : byte % 256 ≡ byte = omega arith in
      bit_and_low8 (bit_xor crc byte) ∙ (rw low at (bit_xor_mod 8 crc byte))

  round :
      (buffer : List ℕ) (n i crc : ℕ)
      → IsBytes buffer
      → i < length buffer
      → crc32_loop (fill_table 256 0 t) buffer (suc n) i crc
        ≡ crc32_loop (fill_table 256 0 t) buffer n (i + 1) (serial_bits 8 crc (get_or buffer i 0))
  unfolding crc32_loop
  round buffer n i crc bytes h =
      let byte = get_or buffer i 0 in
      let is_byte : byte < 256 = All-get_or (λ b. b < 256) buffer i 0 bytes h in
      let index = bit_and (bit_xor crc byte) 255 in
      let in_table : index < 256 = omega (arith, bit_and_low8 (bit_xor crc byte)) in
      rw (get_elem?-eq-get_or buffer i 0 h, filled-entry t index size in_table)
        (ap (crc32_loop (fill_table 256 0 t) buffer n (i + 1)) (
          ap (λ (k : ℕ). bit_xor (shift_rounds 8 k) (crc / 256)) (low_index crc byte is_byte)
          ∙ bit_xor_comm (shift_rounds 8 (bit_xor (crc % 256) byte)) (crc / 256)
          ∙ serial_byte crc byte is_byte))

  loop-serial :
      (buffer : List ℕ) (n i crc : ℕ)
      → IsBytes buffer
      → i + n ≤ length buffer
      → crc32_loop (fill_table 256 0 t) buffer n i crc ≡ some (serial crc (take n (drop i buffer)))
  loop-serial buffer zero i crc bytes h = unfold crc32_loop serial in refl
  loop-serial buffer (suc n) i crc bytes h =
      let next = serial_bits 8 crc (get_or buffer i 0) in
      round buffer n i crc bytes (omega arith)
      ∙ loop-serial buffer n (i + 1) next bytes (omega arith)
      ∙ rw (take-drop_step buffer n i 0 (omega arith)) (unfold serial in refl)

-- With the table of init_crc_table and a size within the buffer, crc32 reads nothing out of range
-- and returns the bit-serial CRC register over those bytes.
pub crc32-serial :
    (t : List ℕ) (crc : ℕ) (buffer : List ℕ) (n : ℕ)
    → length t ≡ 256
    → IsBytes buffer
    → n ≤ length buffer
    → crc32 (init_crc_table t) crc buffer n ≡ some (serial crc (take n buffer))
unfolding crc32 init_crc_table
crc32-serial t crc buffer n size bytes h = loop-serial t size buffer n 0 crc bytes (omega arith)

whole :
    (t : List ℕ) (crc : ℕ) (buffer : List ℕ)
    → length t ≡ 256
    → IsBytes buffer
    → crc32 (init_crc_table t) crc buffer (length buffer) ≡ some (serial crc buffer)
whole t crc buffer size bytes =
    crc32-serial t crc buffer (length buffer) size bytes (omega arith)
    ∙ rw (take-length buffer) refl

-- crc32 of two parts of a message, the second begun with the result for the first, is crc32 of the
-- two parts together.
pub crc32-append :
    (t : List ℕ) (crc : ℕ) (xs ys : List ℕ)
    → length t ≡ 256
    → IsBytes xs
    → IsBytes ys
    → (crc32 (init_crc_table t) crc xs (length xs) >>= λ mid.
        crc32 (init_crc_table t) mid ys (length ys))
      ≡ crc32 (init_crc_table t) crc (xs ++ ys) (length (xs ++ ys))
crc32-append t crc xs ys size hx hy = rw (whole t crc xs size hx) (
    whole t (serial crc xs) ys size hy
    ∙ ap some (sym (serial-append crc xs ys))
    ∙ sym (whole t crc (xs ++ ys) size (All-append (λ b. b < 256) xs ys hx hy)))

loop_overrun :
    (t buffer : List ℕ) (n i crc : ℕ)
    → i ≤ length buffer
    → length buffer < i + n
    → crc32_loop t buffer n i crc ≡ none
unfolding crc32_loop
loop_overrun t buffer zero i crc lo hi = absurd (omega arith)
loop_overrun t buffer (suc n) i crc lo hi = elim (dec_lt i (length buffer)) [
  | yes inside ↦
      rw (get_elem?-eq-get_or buffer i 0 inside)
        (elim (Option-cases (get_elem? t (bit_and (bit_xor crc (get_or buffer i 0)) 255))) [
          | inl e ↦ rw e refl
          | inr (entry, e) ↦ rw e (
              loop_overrun t buffer n (i + 1) (bit_xor entry (crc / 256)) (omega arith)
                (omega arith))
        ])
  | no outside ↦ rw (get_elem?-none buffer i (omega arith)) refl
]

-- With a size beyond the end of the buffer crc32 reads out of range, whatever the table holds.
pub crc32_overrun :
    (t : List ℕ) (crc : ℕ) (buffer : List ℕ) (n : ℕ)
    → length buffer < n
    → crc32 t crc buffer n ≡ none
unfolding crc32
crc32_overrun t crc buffer n h = loop_overrun t buffer n 0 crc (omega arith) (omega arith)

-- The four bytes of a register, lowest first.
abbrev pub bytes_of : ℕ → List ℕ
bytes_of c = c % 256 ∷ c / 256 % 256 ∷ c / 256 / 256 % 256 ∷ c / 256 / 256 / 256 % 256 ∷ []

serial-bytes_of : (c : ℕ) → c < 2 ^ 32 → serial c (bytes_of c) ≡ 0
unfolding serial
serial-bytes_of c small =
    let top : c / 256 / 256 / 256 / 256 ≡ 0 = omega arith in
    rw
      (
        serial_own_byte c,
        serial_own_byte (c / 256),
        serial_own_byte (c / 256 / 256),
        serial_own_byte (c / 256 / 256 / 256),
      )
      top

-- A message of bytes followed by the four bytes of its calc_crc, lowest first, has calc_crc 0.
pub calc_crc_check :
    (t : List ℕ) (message : List ℕ)
    → length t ≡ 256
    → IsBytes message
    → (c : ℕ) × (calc_crc (init_crc_table t) message (length message) ≡ some c)
      × (calc_crc (init_crc_table t) (message ++ bytes_of c) (length (message ++ bytes_of c))
          ≡ some 0)
unfolding calc_crc
calc_crc_check t message size bytes =
    let c = serial 0xffffffff message in
    let small : c < 2 ^ 32 = serial-lt 0xffffffff message (omega arith) in
    (
      c,
      whole t 0xffffffff message size bytes,
      whole t 0xffffffff (message ++ bytes_of c) size
            (All-append (λ b. b < 256) message (bytes_of c) bytes (omega arith))
          ∙ ap some (serial-append 0xffffffff message (bytes_of c) ∙ serial-bytes_of c small),
    )

-- crc32_get with the table of crc32_alloc_init_table returns the complement of the bit-serial
-- register from 0xffffffff over the first size bytes.
pub crc32_get-serial :
    (table buf : List ℕ) (n : ℕ)
    → crc32_alloc_init_table true ≡ some table
    → IsBytes buf
    → n ≤ length buf
    → crc32_get table buf n ≡ some (complement (serial 0xffffffff (take n buf)))
unfolding crc32_alloc_init_table crc32_get
crc32_get-serial table buf n e bytes h =
    let is_filled : fill_table 256 0 (replicate 256 0) ≡ table = some-injective _ _ e in
    rw (← is_filled, loop-serial (replicate 256 0) refl buf n 0 0xffffffff bytes (omega arith)) refl

lut_index :
    (crc byte : ℕ) → byte < 256 → bit_xor (bit_and crc 255) byte ≡ bit_and (bit_xor crc byte) 255
lut_index crc byte h =
    let low : byte % 256 ≡ byte = omega arith in
    rw (bit_and_low8 crc, bit_and_low8 (bit_xor crc byte), bit_xor_mod 8 crc byte, low) refl

lut_loop-eq :
    (t buf : List ℕ) (n i crc : ℕ)
    → IsBytes buf
    → i + n ≤ length buf
    → lut_loop t buf n i crc ≡ crc32_loop t buf n i crc
unfolding lut_loop crc32_loop
lut_loop-eq t buf zero i crc bytes h = refl
lut_loop-eq t buf (suc n) i crc bytes h =
    let byte = get_or buf i 0 in
    let is_byte : byte < 256 = All-get_or (λ b. b < 256) buf i 0 bytes (omega arith) in
    rw (get_elem?-eq-get_or buf i 0 (omega arith), lut_index crc byte is_byte)
      (elim (Option-cases (get_elem? t (bit_and (bit_xor crc byte) 255))) [
        | inl e ↦ rw e refl
        | inr (entry, e) ↦ rw e (
            lut_loop-eq t buf n (i + 1) (bit_xor (crc / 256) entry) bytes (omega arith)
            ∙ ap (crc32_loop t buf n (i + 1)) (bit_xor_comm (crc / 256) entry))
      ])

-- lut_crc32 from 0, which rebuilds its table at each call and masks before it adds the byte,
-- returns what crc32_get returns with the table of crc32_alloc_init_table, for every size within
-- the buffer.
pub lut_crc32-crc32_get :
    (stack table buf : List ℕ) (n : ℕ)
    → length stack ≡ 256
    → crc32_alloc_init_table true ≡ some table
    → IsBytes buf
    → n ≤ length buf
    → lut_crc32 stack 0 buf n ≡ crc32_get table buf n
unfolding lut_crc32
lut_crc32-crc32_get stack table buf n size e bytes h =
    rw
      (
        lut_fill-eq-fill_table 256 0 stack,
        lut_loop-eq (fill_table 256 0 stack) buf n 0 0xffffffff bytes (omega arith),
        loop-serial stack size buf n 0 0xffffffff bytes (omega arith),
        crc32_get-serial table buf n e bytes h,
      )
      refl
