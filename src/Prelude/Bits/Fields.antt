-- ===== src/Prelude/Bits/Fields.antt =====
-- Exclusive or against shifts and low masks, at every width.
use Prim.Native.Nat.{ℕ, zero, suc, ◌+◌, ◌-◌, ◌*◌, ◌/◌, ◌%◌, ◌^◌, ◌≤◌, ◌<◌, min, bit_and, bit_xor}
use mathlib.Core.Path.{◌≡◌, refl, sym, ap, ◌∙◌}
use native.Mathlib.Omega.{arith}
use native.Mathlib.Nat.{
  pow-suc, one-le-pow, div-add-mod', mod-lt, mod-eq_of_lt, mul-add-mod_self_right,
  div-div-eq-div-mul,
}
use general_purpose_library.Prelude.Bits.Digits.{
  bit_xor_step, lowest-bit_and, bit_and-zero, bit_xor_half, bit_xor_parity, bit_xor-zero,
}

pub bit_xor-lt : (k a b : ℕ) → a < 2 ^ k → b < 2 ^ k → bit_xor a b < 2 ^ k
bit_xor-lt zero a b p q =
    let ea : a ≡ 0 = omega arith in let eb : b ≡ 0 = omega arith in rw (ea, eb) (omega arith)
bit_xor-lt (suc k) a b p q = omega (
  arith,
  bit_xor_step a b,
  pow-suc 2 k,
  bit_xor-lt k (a / 2) (b / 2) (omega (arith, pow-suc 2 k)) (omega (arith, pow-suc 2 k)),
)

-- Doubling one operand shifts the other by one digit.
pub bit_xor_double :
    (m r : ℕ) → (bit_xor (m * 2) r / 2 ≡ bit_xor m (r / 2)) × (bit_xor (m * 2) r % 2 ≡ r % 2)
bit_xor_double m r =
    let e : m * 2 / 2 ≡ m = omega arith in
    let half : bit_xor (m * 2) r / 2 ≡ bit_xor m (r / 2) = rw e at (bit_xor_half (m * 2) r) in
    (half, omega (arith, bit_xor_parity (m * 2) r))

pub mul-two_pow_suc : (q k : ℕ) → q * 2 ^ suc k ≡ q * 2 ^ k * 2
mul-two_pow_suc q k = omega (arith, ap (λ (t : ℕ). q * t) (pow-suc 2 k))

-- A field in the low digits does not meet what stands above it.
pub bit_xor_fields : (k q r : ℕ) → r < 2 ^ k → bit_xor (q * 2 ^ k) r ≡ q * 2 ^ k + r
bit_xor_fields zero q r fits =
    let e : r ≡ 0 = omega arith in rw e (omega (arith, bit_xor-zero (q * 1)))
bit_xor_fields (suc k) q r fits = rw (mul-two_pow_suc q k) (
    omega (
      arith,
      bit_xor_double (q * 2 ^ k) r,
      bit_xor_fields k q (r / 2) (omega (arith, pow-suc 2 k)),
    ))

-- The remainder by twice a number, digit first.
mod_digit : (p a : ℕ) → 0 < p → a % (p * 2) ≡ a / 2 % p * 2 + a % 2
mod_digit p a h =
    let q = a / 2 / p in
    let r = a / 2 % p * 2 + a % 2 in
    let parts : a ≡ q * (p * 2) + r =
      omega (arith, ap (λ (t : ℕ). t * 2) (div-add-mod' (a / 2) p)) in
    let small : r < p * 2 = omega (arith, mod-lt (a / 2) h) in
    ap (λ (t : ℕ). t % (p * 2)) parts ∙ mul-add-mod_self_right q (p * 2) r ∙ mod-eq_of_lt small

mod_pow_suc : (k a : ℕ) → a % 2 ^ suc k ≡ a / 2 % 2 ^ k * 2 + a % 2
mod_pow_suc k a = rw (pow-suc 2 k) (mod_digit (2 ^ k) a (one-le-pow k 2 (omega arith)))

-- `x & (2 ^ n - 1)` keeps the remainder.
pub bit_and_mask : (n a : ℕ) → bit_and a (2 ^ n - 1) ≡ a % 2 ^ n
bit_and_mask zero a = omega (arith, bit_and-zero a)
bit_and_mask (suc n) a =
    let pos : 1 ≤ 2 ^ n = one-le-pow n 2 (omega arith) in
    let half : (2 ^ suc n - 1) / 2 ≡ 2 ^ n - 1 = omega (arith, pow-suc 2 n) in
    let odd : (2 ^ suc n - 1) % 2 ≡ 1 = omega (arith, pow-suc 2 n) in
    let step : bit_and a (2 ^ suc n - 1)
        ≡ min (a % 2) ((2 ^ suc n - 1) % 2) + 2 * bit_and (a / 2) (2 ^ n - 1) =
      rw half at (lowest-bit_and a (2 ^ suc n - 1)) in
    omega (arith, step, odd, bit_and_mask n (a / 2), mod_pow_suc n a)

pub bit_and_low8 : (a : ℕ) → bit_and a 255 ≡ a % 256
bit_and_low8 a = bit_and_mask 8 a

pub bit_and_low1 : (a : ℕ) → bit_and a 1 ≡ a % 2
bit_and_low1 a = bit_and_mask 1 a

-- Masking the low digits off commutes with exclusive or, and so does shifting them out.
pub bit_xor_mod : (k a b : ℕ) → bit_xor a b % 2 ^ k ≡ bit_xor (a % 2 ^ k) (b % 2 ^ k)
bit_xor_mod zero a b =
    let ea : a % 1 ≡ 0 = omega arith in
    let eb : b % 1 ≡ 0 = omega arith in rw (ea, eb) (omega arith)
bit_xor_mod (suc k) a b =
    let left = bit_xor_step (a % 2 ^ suc k) (b % 2 ^ suc k) in
    let ha : a % 2 ^ suc k / 2 ≡ a / 2 % 2 ^ k = omega (arith, mod_pow_suc k a) in
    let hb : b % 2 ^ suc k / 2 ≡ b / 2 % 2 ^ k = omega (arith, mod_pow_suc k b) in
    let left' : bit_xor (a % 2 ^ suc k) (b % 2 ^ suc k)
        ≡ bit_xor (a / 2 % 2 ^ k) (b / 2 % 2 ^ k) * 2
          + (a % 2 ^ suc k % 2 + b % 2 ^ suc k % 2) % 2 =
      rw (ha, hb) at left in
    let whole : bit_xor a b % 2 ^ suc k ≡ bit_xor (a / 2) (b / 2) % 2 ^ k * 2 + bit_xor a b % 2 =
      rw (bit_xor_half a b) at (mod_pow_suc k (bit_xor a b)) in
    omega (
      arith,
      left',
      whole,
      bit_xor_parity a b,
      bit_xor_mod k (a / 2) (b / 2),
      mod_pow_suc k a,
      mod_pow_suc k b,
    )

div_pow_suc : (k a : ℕ) → a / 2 ^ suc k ≡ a / 2 / 2 ^ k
div_pow_suc k a =
    rw (pow-suc 2 k) (ap (λ (t : ℕ). a / t) (omega arith) ∙ sym (div-div-eq-div-mul a 2 (2 ^ k)))

pub bit_xor_div : (k a b : ℕ) → bit_xor a b / 2 ^ k ≡ bit_xor (a / 2 ^ k) (b / 2 ^ k)
bit_xor_div zero a b =
    let ea : a / 1 ≡ a = omega arith in
    let eb : b / 1 ≡ b = omega arith in rw (ea, eb) (omega arith)
bit_xor_div (suc k) a b =
    div_pow_suc k (bit_xor a b)
    ∙ ap (λ (t : ℕ). t / 2 ^ k) (bit_xor_half a b)
    ∙ bit_xor_div k (a / 2) (b / 2)
    ∙ rw (div_pow_suc k a, div_pow_suc k b) refl
