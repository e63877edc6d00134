-- ===== src/CpuUsage/Rows.antt =====
-- The lines of /proc/stat, and that fgets and sscanf as cpu_usage.c calls them read them back.
use mathlib.Core.List.{append_assoc, map}
use general_purpose_library.CpuUsage.Scan.{
  fgets, after_digits, number_at, scan_ld, scan_fields, skip_sign, skip_spaces,
}
use general_purpose_library.Decimal.{
  digits, is_digit, is_space, until_nul, Stops, scan_signed, scan_signed-decimal,
}
use general_purpose_library.Prelude.{
  ℕ, zero, suc, ◌+◌, ◌/◌, ◌%◌, ◌≤◌, ◌<◌, ◌≡◌, refl, sym, ap, ◌∙◌, arith, true, false, some, List,
  [], ◌∷◌, ◌++◌, ◌||◌, ltb, ◌==◌, ℤ, pos, length, All, Bool-cases, inl, inr, take,
}

-- Numbers with a space in front of each, and what follows
unfoldable pub print_times : List ℕ → List ℕ → List ℕ
print_times [] rest = rest
print_times (t ∷ ts) rest = 32 ∷ digits (suc t) t (print_times ts rest)

-- A character of a line: no terminator, no end of line
abbrev pub IsPlain : ℕ → Type 0
IsPlain c = ((c == 0) ≡ false) × ((c == 10) ≡ false)

abbrev pub IsDigit : ℕ → Type 0
IsDigit c = is_digit c ≡ true

pub IsDigit-IsPlain : (c : ℕ) → IsDigit c → IsPlain c
IsDigit-IsPlain c h = (ground arith, ground arith)

-- What is printed of a number, in front of any text
pub digits-append :
    (rounds n : ℕ) (rest : List ℕ) → digits rounds n rest ≡ digits rounds n [] ++ rest
unfolding digits
digits-append zero n rest = refl
digits-append (suc rounds) n rest = elim (Bool-cases (ltb n 10)) [
  | inl small ↦ rw (digits, small) refl
  | inr large ↦
      rw (digits, large)
        (digits-append rounds (n / 10) ((48 + n % 10) ∷ rest)
          ∙ sym (append_assoc (digits rounds (n / 10) []) ((48 + n % 10) ∷ []) rest)
          ∙ ap (λ (l : List ℕ). l ++ rest)
              (sym (digits-append rounds (n / 10) ((48 + n % 10) ∷ []))))
]

digits-All :
    (P : ℕ → Type 0) (rounds n : ℕ) (rest : List ℕ)
    → ((c : ℕ) → IsDigit c → P c)
    → All P rest
    → All P (digits rounds n rest)
unfolding digits
digits-All P zero n rest each h = h
digits-All P (suc rounds) n rest each h = elim (Bool-cases (ltb n 10)) [
  | inl small ↦ rw (digits, small) (each (48 + n) (ground arith), h)
  | inr large ↦
      rw (digits, large)
        (digits-All P rounds (n / 10) ((48 + n % 10) ∷ rest) each
          (each (48 + n % 10) (ground arith), h))
]

pub print_times-IsPlain : (ts rest : List ℕ) → All IsPlain rest → All IsPlain (print_times ts rest)
unfolding print_times
print_times-IsPlain [] rest h = h
print_times-IsPlain (t ∷ ts) rest h = (
  (refl, refl),
  digits-All IsPlain (suc t) t (print_times ts rest) IsDigit-IsPlain
      (print_times-IsPlain ts rest h),
)

pub print_times-append : (ts rest : List ℕ) → print_times ts rest ≡ print_times ts [] ++ rest
unfolding print_times
print_times-append [] rest = refl
print_times-append (t ∷ ts) rest =
    ap (λ (l : List ℕ). 32 ∷ l)
      (ap (digits (suc t) t) (print_times-append ts rest)
        ∙ digits-append (suc t) t (print_times ts [] ++ rest)
        ∙ sym (append_assoc (digits (suc t) t []) (print_times ts []) rest)
        ∙ ap (λ (l : List ℕ). l ++ rest) (sym (digits-append (suc t) t (print_times ts []))))

pub fgets_line :
    (room : ℕ) (line rest : List ℕ)
    → All IsPlain line
    → length line < room
    → fgets room (line ++ 10 ∷ rest) ≡ (line ++ 10 ∷ [], rest)
unfolding fgets
fgets_line zero line rest plain h = absurd (omega arith)
fgets_line (suc room) [] rest plain h = refl
fgets_line (suc room) (c ∷ cs) rest plain h =
    rw (fgets, plain.0.1)
      (ap (λ (r : List ℕ × List ℕ). (c ∷ r.0, r.1)) (fgets_line room cs rest plain.1 (omega arith)))

pub until_nul_line :
    (line : List ℕ) → All IsPlain line → until_nul (line ++ 10 ∷ []) ≡ line ++ 10 ∷ []
until_nul_line [] plain = refl
until_nul_line (c ∷ cs) plain =
    rw plain.0.0 (ap (λ (l : List ℕ). c ∷ l) (until_nul_line cs plain.1))

pub printed_digits : (n : ℕ) → All IsDigit (digits (suc n) n [])
printed_digits n = digits-All IsDigit (suc n) n [] (λ c h. h) tt

after_digits_prefix :
    (ds rest : List ℕ) → All IsDigit ds → Stops rest → after_digits (ds ++ rest) ≡ rest
after_digits_prefix [] [] h stops = refl
after_digits_prefix [] (c ∷ cs) h stops = rw stops refl
after_digits_prefix (d ∷ ds) rest h stops = rw h.0 (after_digits_prefix ds rest h.1 stops)

-- A number is read from a text of digits, whatever "%ld" skips in front of it.
number_at_prefix :
    (text ds rest : List ℕ) (n : ℕ)
    → All IsDigit ds
    → Stops rest
    → 0 < length ds
    → scan_signed (pos 0) text ≡ pos n
    → number_at text (ds ++ rest) ≡ some (pos n, rest)
number_at_prefix text [] rest n h stops some_digit value = absurd (omega arith)
number_at_prefix text (d ∷ ds) rest n h stops some_digit value =
    rw (h.0, value, after_digits_prefix ds rest h.1 stops) refl

pub digits-length : (rounds n : ℕ) (rest : List ℕ) → n < rounds → 0 < length (digits rounds n rest)
unfolding digits
digits-length zero n rest h = absurd (omega arith)
digits-length (suc rounds) n rest h = elim (Bool-cases (ltb n 10)) [
  | inl small ↦ rw (digits, small) (omega arith)
  | inr large ↦
      rw (digits, large) (digits-length rounds (n / 10) ((48 + n % 10) ∷ rest) (ground arith))
]

skip_front :
    (ds rest : List ℕ)
    → All IsDigit ds
    → 0 < length ds
    → skip_sign (skip_spaces (32 ∷ ds ++ rest)) ≡ ds ++ rest
skip_front [] rest h some_digit = absurd (omega arith)
skip_front (d ∷ ds) rest h some_digit =
    let space : is_space d ≡ false = digit_space d h.0 in
    let sign : (d == 43 || d == 45) ≡ false = digit_sign d h.0 in rw (space, sign) refl
  where
    digit_space : (d : ℕ) → IsDigit d → is_space d ≡ false
    digit_space d h = ground arith

    digit_sign : (d : ℕ) → IsDigit d → (d == 43 || d == 45) ≡ false
    digit_sign d h = ground arith

space_value : (text : List ℕ) → scan_signed (pos 0) (32 ∷ text) ≡ scan_signed (pos 0) text
unfolding scan_signed
space_value text = refl

scan_ld_number :
    (n : ℕ) (rest : List ℕ) → Stops rest → scan_ld (32 ∷ digits (suc n) n rest) ≡ some (pos n, rest)
unfolding scan_ld
scan_ld_number n rest stops =
    let text = 32 ∷ digits (suc n) n rest in
    let ds = digits (suc n) n [] in
    let e : digits (suc n) n rest ≡ ds ++ rest = digits-append (suc n) n rest in
    let some_digit : 0 < length ds = digits-length (suc n) n [] (omega arith) in
    ap (λ (l : List ℕ). number_at text (skip_sign (skip_spaces (32 ∷ l)))) e
    ∙ ap (number_at text) (skip_front ds rest (printed_digits n) some_digit)
    ∙ number_at_prefix text ds rest n (printed_digits n) stops some_digit
        (space_value (digits (suc n) n rest) ∙ scan_signed-decimal (pos 0) n rest stops)

print_times-Stops : (ts rest : List ℕ) → Stops rest → Stops (print_times ts rest)
unfolding print_times
print_times-Stops [] rest h = h
print_times-Stops (t ∷ ts) rest h = refl

-- As many numbers are read as there are variables.
pub scan_fields-print_times :
    (olds : List ℤ) (ts rest : List ℕ)
    → length olds ≤ length ts
    → Stops rest
    → scan_fields olds (print_times ts rest) ≡ map pos (take (length olds) ts)
unfolding scan_fields print_times
scan_fields-print_times [] ts rest h stops = refl
scan_fields-print_times (old ∷ olds) [] rest h stops = absurd (omega arith)
scan_fields-print_times (old ∷ olds) (t ∷ ts) rest h stops =
    let next = scan_ld_number t (print_times ts rest) (print_times-Stops ts rest stops) in
    rw (scan_fields, print_times, next)
      (ap (λ (l : List ℤ). pos t ∷ l) (scan_fields-print_times olds ts rest (omega arith) stops))

number_at_space : (text u : List ℕ) → number_at (32 ∷ text) u ≡ number_at text u
unfolding scan_signed
number_at_space text [] = refl
number_at_space text (c ∷ cs) = refl

-- One more space in front changes nothing.
pub scan_fields_space :
    (olds : List ℤ) (text : List ℕ) → scan_fields olds (32 ∷ text) ≡ scan_fields olds text
unfolding scan_fields scan_ld
scan_fields_space [] text = refl
scan_fields_space (old ∷ olds) text =
    rw (scan_fields, scan_ld, number_at_space text (skip_sign (skip_spaces text))) refl
