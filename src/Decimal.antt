-- ===== src/Decimal.antt =====
-- What `%d` prints and reads, and where a string ends. A character is its code; the value read is
-- exact, since its overflow is undefined in C.
use general_purpose_library.Prelude.{
  ℕ, zero, suc, ◌+◌, ◌-◌, ◌*◌, ◌/◌, ◌%◌, ◌<◌, ◌≡◌, refl, ap, ◌∙◌, arith, Bool, true, false, ◌&&◌,
  ◌||◌, List, [], ◌∷◌, ltb, leb, ◌==◌, if◌then◌else◌, ℤ, pos, negsuc, ◌-ℤ◌, Bool-cases, inl, inr,
}

-- The digits of a number, put before `rest`; one round is enough for each digit.
unfoldable pub digits : ℕ → ℕ → List ℕ → List ℕ
digits zero n rest = rest
digits (suc rounds) n rest = elim (ltb n 10) [
  | true ↦ (48 + n) ∷ rest
  | false ↦ digits rounds (n / 10) ((48 + n % 10) ∷ rest)
]

unfoldable pub decimal : ℤ → List ℕ
unfolding digits
decimal (pos n) = digits (suc n) n []
decimal (negsuc n) = 45 ∷ digits (suc (suc n)) (suc n) []

abbrev pub is_digit : ℕ → Bool
is_digit c = leb 48 c && leb c 57

unfoldable pub scan_digits : ℕ → List ℕ → ℕ
scan_digits acc [] = acc
scan_digits acc (c ∷ cs) = elim (is_digit c) [
  | true ↦ scan_digits (acc * 10 + (c - 48)) cs
  | false ↦ acc
]

-- The bytes of a string, up to its terminator
abbrev pub until_nul : List ℕ → List ℕ
until_nul [] = []
until_nul (c ∷ cs) = if c == 0 then [] else c ∷ until_nul cs

abbrev pub is_space : ℕ → Bool
is_space c = c == 32 || leb 9 c && leb c 13

-- The number after a sign; `old` where no digit follows
unfoldable pub signed_digits : ℤ → Bool → List ℕ → ℤ
signed_digits old negative [] = old
signed_digits old negative (c ∷ cs) =
    let n = pos (scan_digits 0 (c ∷ cs)) in
    if is_digit c then (if negative then pos 0 -ℤ n else n) else old

-- `old` is what a text with no number in front leaves in the variable.
unfoldable pub scan_signed : ℤ → List ℕ → ℤ
scan_signed old [] = old
scan_signed old (c ∷ cs) = elim (is_space c) [
  | true ↦ scan_signed old cs
  | false ↦
      if c == 45
      then signed_digits old true cs
      else if c == 43
      then signed_digits old false cs
      else signed_digits old false (c ∷ cs)
]

-- Whether a text goes on with something that is no digit
abbrev pub Stops : List ℕ → Type 0
Stops [] = Unit {0}
Stops (c ∷ cs) = is_digit c ≡ false

stop-scan_digits : (acc : ℕ) (rest : List ℕ) → Stops rest → scan_digits acc rest ≡ acc
unfolding scan_digits
stop-scan_digits acc [] h = refl
stop-scan_digits acc (c ∷ cs) h = rw (scan_digits, h) refl

one_digit :
    (acc d : ℕ) (rest : List ℕ)
    → d < 10
    → scan_digits acc ((48 + d) ∷ rest) ≡ scan_digits (acc * 10 + d) rest
unfolding scan_digits
one_digit acc d rest h =
    let test : is_digit (48 + d) ≡ true = ground arith in
    rw (scan_digits, test) (ap (λ (k : ℕ). scan_digits (acc * 10 + k) rest) (omega arith))

pub scan_digits-digits :
    (rounds n : ℕ) (rest : List ℕ)
    → n < rounds
    → scan_digits 0 (digits rounds n rest) ≡ scan_digits n rest
unfolding digits scan_digits
scan_digits-digits zero n rest h = absurd (omega arith)
scan_digits-digits (suc rounds) n rest h = elim (Bool-cases (ltb n 10)) [
  | inl small ↦
      rw (digits, small)
        (one_digit 0 n rest (ground arith) ∙ ap (λ (k : ℕ). scan_digits k rest) (omega arith))
  | inr large ↦
      rw (digits, large)
        (scan_digits-digits rounds (n / 10) ((48 + n % 10) ∷ rest) (ground arith)
          ∙ one_digit (n / 10) (n % 10) rest (omega arith)
          ∙ ap (λ (k : ℕ). scan_digits k rest) (omega arith))
]

-- What is printed is read back, before anything that is no digit.
scan-decimal : (n : ℕ) (rest : List ℕ) → Stops rest → scan_digits 0 (digits (suc n) n rest) ≡ n
scan-decimal n rest h = scan_digits-digits (suc n) n rest (omega arith) ∙ stop-scan_digits n rest h

abbrev StartsWithDigit : List ℕ → Type 0
StartsWithDigit [] = ⊥
StartsWithDigit (c ∷ cs) = is_digit c ≡ true

digits_start : (rounds n : ℕ) (rest : List ℕ) → n < rounds → StartsWithDigit (digits rounds n rest)
unfolding digits
digits_start zero n rest h = absurd (omega arith)
digits_start (suc rounds) n rest h = elim (Bool-cases (ltb n 10)) [
  | inl small ↦ rw (digits, small) (ground arith)
  | inr large ↦
      rw (digits, large) (digits_start rounds (n / 10) ((48 + n % 10) ∷ rest) (ground arith))
]

scan_signed_digits :
    (old : ℤ) (text : List ℕ)
    → StartsWithDigit text
    → scan_signed old text ≡ pos (scan_digits 0 text)
unfolding scan_signed signed_digits
scan_signed_digits old [] h = absurd h
scan_signed_digits old (c ∷ cs) h =
    let space : is_space c ≡ false = ground arith in
    let minus : (c == 45) ≡ false = ground arith in
    let plus : (c == 43) ≡ false = ground arith in rw (scan_signed, space, minus, plus, h) refl

pub scan_signed-decimal :
    (old : ℤ) (n : ℕ) (rest : List ℕ) → Stops rest → scan_signed old (digits (suc n) n rest) ≡ pos n
scan_signed-decimal old n rest h =
    scan_signed_digits old (digits (suc n) n rest) (digits_start (suc n) n rest (omega arith))
    ∙ ap pos (scan-decimal n rest h)
