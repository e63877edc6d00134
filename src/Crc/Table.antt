-- ===== src/Crc/Table.antt =====
-- The filled tables: entry `i` is eight rounds from `i`, whatever the array held before.
use general_purpose_library.Prelude.{
  ℕ, zero, suc, ◌+◌, ◌/◌, ◌≤◌, ◌<◌, ◌≡◌, refl, ap, ◌∙◌, arith, List, length, get_or, set,
  length-set, get_or-set_self, get_or-set_ne, ◌==◌, Bool-cases, inl, inr, some, get_elem?,
  get_elem?-eq-get_or,
}
use general_purpose_library.Prelude.Bits.{bit_xor_comm}
use general_purpose_library.Crc.{
  polynomial, table_step, shift_rounds, fill_table, lut_step, lut_rounds, lut_fill,
}

lut_step-eq : (c : ℕ) → lut_step c ≡ table_step c
unfolding lut_step table_step
lut_step-eq c = ground (arith, bit_xor_comm polynomial (c / 2))

lut_rounds-eq : (n c : ℕ) → lut_rounds n c ≡ shift_rounds n c
unfolding lut_rounds shift_rounds
lut_rounds-eq zero c = refl
lut_rounds-eq (suc n) c = rw (lut_step-eq c) (lut_rounds-eq n (table_step c))

-- Both ways to compute the table give the same one.
pub lut_fill-eq-fill_table : (n i : ℕ) (t : List ℕ) → lut_fill n i t ≡ fill_table n i t
unfolding lut_fill fill_table
lut_fill-eq-fill_table zero i t = refl
lut_fill-eq-fill_table (suc n) i t =
    rw (lut_rounds-eq 8 i) (lut_fill-eq-fill_table n (i + 1) (set t i (shift_rounds 8 i)))

length-fill_table : (n i : ℕ) (t : List ℕ) → length (fill_table n i t) ≡ length t
unfolding fill_table
length-fill_table zero i t = refl
length-fill_table (suc n) i t =
    length-fill_table n (i + 1) (set t i (shift_rounds 8 i)) ∙ length-set t i (shift_rounds 8 i)

fill_table-below : (n i j : ℕ) (t : List ℕ) → j < i → get_or (fill_table n i t) j 0 ≡ get_or t j 0
unfolding fill_table
fill_table-below zero i j t h = refl
fill_table-below (suc n) i j t h =
    fill_table-below n (i + 1) j (set t i (shift_rounds 8 i)) (omega arith)
    ∙ get_or-set_ne t i j (shift_rounds 8 i) 0 (omega arith)

fill_table-entry :
    (n i j : ℕ) (t : List ℕ)
    → i ≤ j
    → j < i + n
    → i + n ≤ length t
    → get_or (fill_table n i t) j 0 ≡ shift_rounds 8 j
unfolding fill_table
fill_table-entry zero i j t lo hi fits = absurd (omega arith)
fill_table-entry (suc n) i j t lo hi fits = elim (Bool-cases (i == j)) [
  | inl e ↦
      let same : j ≡ i = ground arith in
      rw same (
        fill_table-below n (i + 1) i (set t i (shift_rounds 8 i)) (omega arith)
        ∙ get_or-set_self t i (shift_rounds 8 i) 0 (omega arith))
  | inr e ↦
      fill_table-entry n (i + 1) j (set t i (shift_rounds 8 i)) (ground arith) (omega arith)
        (omega (arith, length-set t i (shift_rounds 8 i)))
]

-- The filled table has an entry at every index that a byte can be: eight rounds from the index.
pub filled-entry :
    (t : List ℕ) (j : ℕ)
    → length t ≡ 256
    → j < 256
    → get_elem? (fill_table 256 0 t) j ≡ some (shift_rounds 8 j)
filled-entry t j size h =
    get_elem?-eq-get_or (fill_table 256 0 t) j 0 (omega (arith, length-fill_table 256 0 t))
    ∙ ap some (fill_table-entry 256 0 j t (omega arith) (omega arith) (omega arith))
