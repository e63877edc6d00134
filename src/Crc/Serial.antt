-- ===== src/Crc/Serial.antt =====
-- The reference: a shift register that takes the message bit by bit, lowest bit first. It has no
-- table and no byte step. Here are its laws, and the byte step that the table routines rest on.
use general_purpose_library.Prelude.{
  ℕ, zero, suc, ◌+◌, ◌*◌, ◌/◌, ◌%◌, ◌^◌, ◌<◌, ◌≡◌, refl, sym, ap, ◌∙◌, arith, List, [], ◌∷◌, ◌++◌,
  ◌==◌, if◌then◌else◌, ◌⊎◌, inl, inr,
}
use general_purpose_library.Prelude.Bits.{
  bit_xor, bit_xor_half, bit_xor_parity, bit_xor_assoc, bit_xor_comm, bit_xor_fields, bit_xor_mod,
  bit_xor_double, bit_xor_div, mul-two_pow_suc, bit_xor_self, bit_xor-zero, bit_xor-lt,
  bit_and_low1,
}
use native.Mathlib.Nat.{pow-suc}
use general_purpose_library.Crc.{polynomial, table_step, shift_rounds}

-- One message bit: the register moves down, and the polynomial is added where the bit that
-- leaves it differs from the message bit.
unfoldable pub serial_bit : ℕ → ℕ → ℕ
serial_bit crc bit = if (crc + bit) % 2 == 1 then bit_xor polynomial (crc / 2) else crc / 2

-- `n` bits of a byte, lowest first
unfoldable pub serial_bits : ℕ → ℕ → ℕ → ℕ
serial_bits zero crc byte = crc
serial_bits (suc n) crc byte = serial_bits n (serial_bit crc (byte % 2)) (byte / 2)

-- a message of bytes
unfoldable pub serial : ℕ → List ℕ → ℕ
serial crc [] = crc
serial crc (byte ∷ bytes) = serial (serial_bits 8 crc byte) bytes

pub serial-append : (crc : ℕ) (xs ys : List ℕ) → serial crc (xs ++ ys) ≡ serial (serial crc xs) ys
unfolding serial
serial-append crc [] ys = refl
serial-append crc (x ∷ xs) ys = serial-append (serial_bits 8 crc x) xs ys

table_step-odd : (c : ℕ) → c % 2 ≡ 1 → table_step c ≡ bit_xor polynomial (c / 2)
unfolding table_step
table_step-odd c h = ground (arith, bit_and_low1 c)

table_step-even : (c : ℕ) → c % 2 ≡ 0 → table_step c ≡ c / 2
unfolding table_step
table_step-even c h = ground (arith, bit_and_low1 c)

parity : (r : ℕ) → (r % 2 ≡ 0) ⊎ (r % 2 ≡ 1)
parity r = omega arith

xor_left_comm : (a b c : ℕ) → bit_xor a (bit_xor b c) ≡ bit_xor b (bit_xor a c)
xor_left_comm a b c =
    sym (bit_xor_assoc a b c) ∙ ap (λ (t : ℕ). bit_xor t c) (bit_xor_comm a b) ∙ bit_xor_assoc b a c

-- A step is linear in what stands above the lowest digit.
table_step_double : (m r : ℕ) → table_step (bit_xor (m * 2) r) ≡ bit_xor m (table_step r)
table_step_double m r =
    let (half, low) = bit_xor_double m r in
    elim (parity r) [
      | inl e ↦
          table_step-even (bit_xor (m * 2) r) (low ∙ e)
          ∙ half
          ∙ ap (bit_xor m) (sym (table_step-even r e))
      | inr e ↦
          table_step-odd (bit_xor (m * 2) r) (low ∙ e)
          ∙ ap (bit_xor polynomial) half
          ∙ xor_left_comm polynomial m (r / 2)
          ∙ ap (bit_xor m) (sym (table_step-odd r e))
    ]

-- `n` rounds shift what stands above the lowest `n` digits down, unchanged.
shift_rounds_field :
    (n q r : ℕ) → shift_rounds n (bit_xor (q * 2 ^ n) r) ≡ bit_xor q (shift_rounds n r)
unfolding shift_rounds
shift_rounds_field zero q r = ap (λ (t : ℕ). bit_xor t r) (omega arith)
shift_rounds_field (suc n) q r =
    rw (mul-two_pow_suc q n, table_step_double (q * 2 ^ n) r)
      (shift_rounds_field n q (table_step r))

-- The byte step of the table routines: look the low byte up, and add the rest shifted down.
pub shift_rounds_byte : (c : ℕ) → shift_rounds 8 c ≡ bit_xor (c / 256) (shift_rounds 8 (c % 256))
shift_rounds_byte c =
    let split : c ≡ bit_xor (c / 256 * 2 ^ 8) (c % 256) =
      omega (arith, bit_xor_fields 8 (c / 256) (c % 256) (omega arith)) in
    ap (shift_rounds 8) split ∙ shift_rounds_field 8 (c / 256) (c % 256)

serial_bit_xor :
    (crc byte : ℕ) → table_step (bit_xor crc byte) ≡ bit_xor (serial_bit crc (byte % 2)) (byte / 2)
unfolding serial_bit
serial_bit_xor crc byte =
    let low : bit_xor crc byte % 2 ≡ (crc + byte % 2) % 2 =
      omega (arith, bit_xor_parity crc byte) in
    elim (parity (crc + byte % 2)) [
      | inl e ↦ table_step-even (bit_xor crc byte) (low ∙ e) ∙ bit_xor_half crc byte ∙ (rw e)
      | inr e ↦
          table_step-odd (bit_xor crc byte) (low ∙ e)
          ∙ ap (bit_xor polynomial) (bit_xor_half crc byte)
          ∙ rw e (sym (bit_xor_assoc polynomial (crc / 2) (byte / 2)))
    ]

-- A byte added at once and then shifted `n` times is the byte fed bit by bit.
shift_rounds_serial :
    (n crc byte : ℕ) → byte < 2 ^ n → shift_rounds n (bit_xor crc byte) ≡ serial_bits n crc byte
unfolding shift_rounds serial_bits
shift_rounds_serial zero crc byte h = let e : byte ≡ 0 = omega arith in rw e (bit_xor-zero crc)
shift_rounds_serial (suc n) crc byte h =
    ap (shift_rounds n) (serial_bit_xor crc byte)
    ∙ shift_rounds_serial n (serial_bit crc (byte % 2)) (byte / 2) (omega (arith, pow-suc 2 n))

-- One byte of the message, as the loops compute it.
pub serial_byte :
    (crc byte : ℕ)
    → byte < 256
    → bit_xor (crc / 256) (shift_rounds 8 (bit_xor (crc % 256) byte)) ≡ serial_bits 8 crc byte
serial_byte crc byte h =
    let none_above : byte / 256 ≡ 0 = omega arith in
    let all_low : byte % 256 ≡ byte = omega arith in
    let high : bit_xor crc byte / 256 ≡ crc / 256 =
      bit_xor_div 8 crc byte ∙ rw none_above (bit_xor-zero (crc / 256)) in
    let low : bit_xor crc byte % 256 ≡ bit_xor (crc % 256) byte =
      rw all_low at (bit_xor_mod 8 crc byte) in
    rw (← high, ← low)
      (sym (shift_rounds_byte (bit_xor crc byte)) ∙ shift_rounds_serial 8 crc byte h)

shift_rounds-zero : shift_rounds 8 0 ≡ 0
unfolding shift_rounds table_step
shift_rounds-zero = refl

-- The register fed its own low byte drops it.
pub serial_own_byte : (crc : ℕ) → serial_bits 8 crc (crc % 256) ≡ crc / 256
serial_own_byte crc =
    sym (serial_byte crc (crc % 256) (omega arith))
    ∙ rw (bit_xor_self (crc % 256)) (rw shift_rounds-zero (bit_xor-zero (crc / 256)))

serial_bit-lt : (crc bit : ℕ) → crc < 2 ^ 32 → serial_bit crc bit < 2 ^ 32
unfolding serial_bit
serial_bit-lt crc bit h =
    ground (arith, bit_xor-lt 32 polynomial (crc / 2) (omega arith) (omega arith))

serial_bits-lt : (n crc byte : ℕ) → crc < 2 ^ 32 → serial_bits n crc byte < 2 ^ 32
unfolding serial_bits
serial_bits-lt zero crc byte h = h
serial_bits-lt (suc n) crc byte h =
    serial_bits-lt n (serial_bit crc (byte % 2)) (byte / 2) (serial_bit-lt crc (byte % 2) h)

pub serial-lt : (crc : ℕ) (xs : List ℕ) → crc < 2 ^ 32 → serial crc xs < 2 ^ 32
unfolding serial
serial-lt crc [] h = h
serial-lt crc (x ∷ xs) h = serial-lt (serial_bits 8 crc x) xs (serial_bits-lt 8 crc x h)
