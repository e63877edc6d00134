-- ===== src/I2c/Tests.antt =====
-- A device with registers of two bytes for an address and one for a value.
use mathlib.Core.Path.{subst}
use general_purpose_library.Prelude.{
  ℕ, ◌+◌, ◌≡◌, ◌≢◌, refl, ap, ◌∙◌, arith, Bool, true, false, ◌&&◌, none, some, List, [], ◌∷◌, ◌++◌,
  ◌==◌, if◌then◌else◌, pos, length, take, drop, Bool-cases, inl, inr, ==_refl,
}
use general_purpose_library.Prelude.Slices.{take_prefix, drop_prefix}
use general_purpose_library.Decimal.{digits, decimal}
use general_purpose_library.I2c.{Ctrl, Bus, i2c_read, i2c_write, i2c_open}
use general_purpose_library.I2c.Registers.{IsDevice, Reads, i2c_read-i2c_write}

abbrev camera : Ctrl
camera = record { i2c_num = 1; dev_addr = 60; reg_width = 2; data_width = 1; priv = pos 3 }

abbrev eq_bytes : List ℕ → List ℕ → Bool
eq_bytes [] [] = true
eq_bytes [] (b ∷ bs) = false
eq_bytes (a ∷ as') [] = false
eq_bytes (a ∷ as') (b ∷ bs) = (a == b) && eq_bytes as' bs

eq_bytes_refl : (xs : List ℕ) → eq_bytes xs xs ≡ true
eq_bytes_refl [] = refl
eq_bytes_refl (x ∷ xs) = rw (==_refl x, eq_bytes_refl xs) refl

eq_bytes_sound : (xs ys : List ℕ) → eq_bytes xs ys ≡ true → xs ≡ ys
eq_bytes_sound [] [] h = refl
eq_bytes_sound [] (y ∷ ys) h = absurd (ground arith)
eq_bytes_sound (x ∷ xs) [] h = absurd (ground arith)
eq_bytes_sound (x ∷ xs) (y ∷ ys) h =
    let a : x ≡ y = ground arith in
    let b : eq_bytes xs ys ≡ true = ground arith in
    ap (λ (z : ℕ). z ∷ xs) a ∙ ap (λ (zs : List ℕ). y ∷ zs) (eq_bytes_sound xs ys b)

eq_bytes_ne : (xs ys : List ℕ) → xs ≢ ys → eq_bytes xs ys ≡ false
eq_bytes_ne xs ys ne = elim (Bool-cases (eq_bytes xs ys)) [
  | inl same ↦ absurd (ne (eq_bytes_sound xs ys same))
  | inr other ↦ other
]

abbrev Memory : Type 0
Memory = List ℕ → List ℕ

abbrev memory_bus : Bus Memory
memory_bus = record {
  open_device = λ name w. (pos 3, w);
  ioctl_slave = λ fd addr w. (pos 0, w);
  ioctl_rdwr = λ fd addr reg len w. (pos 2, w reg, w);
  write_bytes =
      λ fd bytes w. (pos 0, λ reg. if eq_bytes reg (take 2 bytes) then drop 2 bytes else w reg);
  close_device = λ fd w. (pos 0, w);
}

took : (reg value : List ℕ) → length reg ≡ 2 → take 2 (reg ++ value) ≡ reg
took reg value h = subst (λ (k : ℕ). take k (reg ++ value) ≡ reg) h (take_prefix reg value)

dropped : (reg value : List ℕ) → length reg ≡ 2 → drop 2 (reg ++ value) ≡ value
dropped reg value h =
    let e : length reg + 0 ≡ 2 = omega (arith, h) in
    subst (λ (k : ℕ). drop k (reg ++ value) ≡ value) e (drop_prefix reg value 0)

abbrev memory_device : IsDevice memory_bus camera
memory_device = record {
  registers = λ w. w;
  slave = λ w. 60;
  writes = λ reg value w slave reg_len value_len. (
    refl,
    rw (took reg value reg_len, eq_bytes_refl reg, dropped reg value reg_len) refl,
    λ other ne. rw (took reg value reg_len, eq_bytes_ne other reg ne) refl,
  );
  reads = λ reg w reg_len. (refl, refl);
}

abbrev zeros : Memory
zeros reg = 0 ∷ []

i2c_read-i2c_write_example :
    ((i2c_write memory_bus (some camera) 0x3008 0x82 zeros).0 ≡ pos 0)
    × Reads memory_bus camera memory_device true false refl refl 0x82 (
        i2c_read memory_bus
          (some camera)
          0x3008
          7
          (i2c_write memory_bus (some camera) 0x3008 0x82 zeros).1)
    × Reads memory_bus camera memory_device true false refl refl 0 (
        i2c_read memory_bus
          (some camera)
          0x3009
          7
          (i2c_write memory_bus (some camera) 0x3008 0x82 zeros).1)
i2c_read-i2c_write_example =
    i2c_read-i2c_write memory_bus camera memory_device true false refl refl 0x3008 0x82 7 0x3009 0
      zeros refl (omega arith) (omega arith) (omega arith) (omega arith) refl (λ e. omega arith)

-- A number of seven digits makes the name one byte too long.
name_too_long : i2c_open memory_bus (some (record camera { i2c_num = 1000000 })) zeros ≡ none
unfolding i2c_open decimal digits
name_too_long = refl
