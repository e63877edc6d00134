-- ===== src/CpuUsage/Scan.antt =====
-- fgets, and the conversions "%s" and "%ld" of sscanf, as cpus_refresh of cpu_usage.c uses them.
use general_purpose_library.Decimal.{is_digit, is_space, scan_signed, until_nul}
use general_purpose_library.Prelude.{
  ℕ, zero, suc, ◌||◌, Option, none, some, List, [], ◌∷◌, ◌==◌, if◌then◌else◌, ℤ, pos,
}

-- A line with its end, of `room` bytes at most, and what is left of the file
unfoldable pub fgets : ℕ → List ℕ → List ℕ × List ℕ
fgets zero text = ([], text)
fgets (suc room) [] = ([], [])
fgets (suc room) (c ∷ cs) =
    let (line, rest) = fgets room cs in if c == 10 then (c ∷ [], cs) else (c ∷ line, rest)

abbrev pub skip_spaces : List ℕ → List ℕ
skip_spaces [] = []
skip_spaces (c ∷ cs) = if is_space c then skip_spaces cs else c ∷ cs

abbrev pub word_of : List ℕ → List ℕ
word_of [] = []
word_of (c ∷ cs) = if is_space c then [] else c ∷ word_of cs

abbrev pub after_word : List ℕ → List ℕ
after_word [] = []
after_word (c ∷ cs) = if is_space c then c ∷ cs else after_word cs

-- "%s" fails at the end of the text.
abbrev pub word_at : List ℕ → Option (List ℕ × List ℕ)
word_at [] = none
word_at (c ∷ cs) = some (word_of (c ∷ cs), after_word (c ∷ cs))

unfoldable pub scan_word : List ℕ → Option (List ℕ × List ℕ)
scan_word line = word_at (skip_spaces (until_nul line))

abbrev pub skip_sign : List ℕ → List ℕ
skip_sign [] = []
skip_sign (c ∷ cs) = if c == 43 || c == 45 then cs else c ∷ cs

abbrev pub after_digits : List ℕ → List ℕ
after_digits [] = []
after_digits (c ∷ cs) = if is_digit c then after_digits cs else c ∷ cs

abbrev pub number_at : List ℕ → List ℕ → Option (ℤ × List ℕ)
number_at text [] = none
number_at text (c ∷ cs) =
    if is_digit c then some (scan_signed (pos 0) text, after_digits cs) else none

-- "%ld"
unfoldable pub scan_ld : List ℕ → Option (ℤ × List ℕ)
scan_ld text = number_at text (skip_sign (skip_spaces text))

-- One "%ld" for each variable; those from the first that fails keep their values.
unfoldable pub scan_fields : List ℤ → List ℕ → List ℤ
scan_fields [] text = []
scan_fields (old ∷ olds) text = elim (scan_ld text) [
  | none ↦ old ∷ olds
  | some (n, rest) ↦ n ∷ scan_fields olds rest
]
