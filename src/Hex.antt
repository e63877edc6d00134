-- ===== src/Hex.antt =====
-- What "%02x" prints of an int.
use general_purpose_library.Prelude.{
  ℕ, zero, suc, ◌+◌, ◌*◌, ◌/◌, ◌%◌, ◌<◌, ◌≡◌, refl, ap, arith, true, false, List, [], ◌∷◌, ◌++◌,
  ltb, if◌then◌else◌, ℤ, pos, to_u32, length, Bool-cases, inl, inr,
}

abbrev pub hex_digit : ℕ → ℕ
hex_digit d = if ltb d 10 then 48 + d else 87 + d

abbrev pub print_hex : ℕ → ℕ → List ℕ → List ℕ
print_hex zero n rest = rest
print_hex (suc rounds) n rest = elim (ltb n 16) [
  | true ↦ hex_digit n ∷ rest
  | false ↦ print_hex rounds (n / 16) (hex_digit (n % 16) ∷ rest)
]

-- "%02x" of an int
abbrev pub format_02x : ℤ → List ℕ
format_02x v = let n = to_u32 v in if ltb n 16 then 48 ∷ hex_digit n ∷ [] else print_hex 8 n []

abbrev pub IsByte : ℕ → Type 0
IsByte b = b < 256

-- Two digits for each byte
abbrev pub hex_pairs : List ℕ → List ℕ
hex_pairs [] = []
hex_pairs (b ∷ bs) = hex_digit (b / 16) ∷ hex_digit (b % 16) ∷ hex_pairs bs

print_hex_two :
    (rounds b : ℕ)
    → ltb b 16 ≡ false
    → ltb (b / 16) 16 ≡ true
    → print_hex (suc (suc rounds)) b [] ≡ hex_digit (b / 16) ∷ hex_digit (b % 16) ∷ []
print_hex_two rounds b large next = rw (print_hex, large, next) refl

pub format_02x_byte :
    (b : ℕ) → IsByte b → format_02x (pos b) ≡ hex_digit (b / 16) ∷ hex_digit (b % 16) ∷ []
unfolding to_u32
format_02x_byte b h = elim (Bool-cases (ltb b 16)) [
  | inl small ↦
      let zero : b / 16 ≡ 0 = ground arith in
      let same : b % 16 ≡ b = ground arith in rw (small, zero, same) refl
  | inr large ↦
      let next : ltb (b / 16) 16 ≡ true = ground arith in rw large (print_hex_two 6 b large next)
]

pub length-hex_pairs : (bs : List ℕ) → length (hex_pairs bs) ≡ 2 * length bs
length-hex_pairs [] = omega arith
length-hex_pairs (b ∷ bs) = let h = length-hex_pairs bs in omega arith

pub hex_pairs-append : (xs ys : List ℕ) → hex_pairs (xs ++ ys) ≡ hex_pairs xs ++ hex_pairs ys
hex_pairs-append [] ys = refl
hex_pairs-append (x ∷ xs) ys =
    ap (λ (t : List ℕ). hex_digit (x / 16) ∷ hex_digit (x % 16) ∷ t) (hex_pairs-append xs ys)
