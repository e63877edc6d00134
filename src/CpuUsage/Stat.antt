-- ===== src/CpuUsage/Stat.antt =====
-- The text of /proc/stat as rows of numbers, and what cpus_refresh of cpu_usage.c makes of one row.
use mathlib.Core.List.{append_assoc, map}
use general_purpose_library.CpuUsage.{Scanned, scan_into, scan_line, take_times, next_line, turn}
use general_purpose_library.CpuUsage.Rows.{
  IsPlain, IsDigit, IsDigit-IsPlain, print_times, print_times-IsPlain, print_times-append,
  printed_digits, digits-length, until_nul_line, scan_fields-print_times, scan_fields_space,
}
use general_purpose_library.CpuUsage.Scan.{
  word_of, after_word, scan_word, word_at, skip_spaces, scan_fields,
}
use general_purpose_library.Decimal.{digits, is_space, scan_signed-decimal}
use general_purpose_library.Prelude.{
  ℕ, suc, ◌≤◌, ◌<◌, ◌≡◌, refl, sym, ap, ◌∙◌, arith, Bool, true, false, not, Option, none, some,
  List, [], ◌∷◌, ◌++◌, ltb, ◌==◌, if◌then◌else◌, ℤ, pos, negsuc, eqb_ℤ, length, All, take, get_or,
}

-- A row has no number where it is that of all processors.
pub record Row : Type 0 where
  pub name : Option ℕ
  pub times : List ℕ

abbrev pub name_text : Option ℕ → List ℕ
name_text none = []
name_text (some k) = digits (suc k) k []

-- The row of all processors has one more space.
abbrev pub gap : Option ℕ → List ℕ → List ℕ
gap none rest = 32 ∷ rest
gap (some k) rest = rest

abbrev pub label : Row → List ℕ
label row = 99 ∷ 112 ∷ 117 ∷ name_text row.name

abbrev pub row_line : Row → List ℕ
row_line row = label row ++ gap row.name (print_times row.times [])

abbrev pub stat_text : List Row → List ℕ → List ℕ
stat_text [] rest = rest
stat_text (row ∷ rows) rest = row_line row ++ 10 ∷ stat_text rows rest

-- The end of the file, or the row of the interrupts
abbrev pub other_rows : Option (List ℕ) → List ℕ
other_rows none = []
other_rows (some more) = 105 ∷ 110 ∷ 116 ∷ 114 ∷ 32 ∷ more

abbrev pub Fits : Row → Type 0
Fits row =
    (length (row_line row) < 127) × (length (name_text row.name) < 29) × (7 ≤ length row.times)

name_text-IsDigit : (name : Option ℕ) → All IsDigit (name_text name)
name_text-IsDigit none = tt
name_text-IsDigit (some k) = printed_digits k

digits-IsPlain : (ds rest : List ℕ) → All IsDigit ds → All IsPlain rest → All IsPlain (ds ++ rest)
digits-IsPlain [] rest h plain = plain
digits-IsPlain (d ∷ ds) rest h plain = (IsDigit-IsPlain d h.0, digits-IsPlain ds rest h.1 plain)

gap-IsPlain : (name : Option ℕ) (rest : List ℕ) → All IsPlain rest → All IsPlain (gap name rest)
gap-IsPlain none rest h = ((refl, refl), h)
gap-IsPlain (some k) rest h = h

pub row_line-IsPlain : (row : Row) → All IsPlain (row_line row)
row_line-IsPlain row =
    let times = print_times row.times [] in
    let numbers = gap-IsPlain row.name times (print_times-IsPlain row.times [] tt) in
    let named =
      digits-IsPlain (name_text row.name) (gap row.name times) (name_text-IsDigit row.name)
        numbers in
    ((refl, refl), ((refl, refl), ((refl, refl), named)))

word_prefix :
    (ds rest : List ℕ)
    → All IsDigit ds
    → (word_of (ds ++ 32 ∷ rest) ≡ ds) × (after_word (ds ++ 32 ∷ rest) ≡ 32 ∷ rest)
word_prefix [] rest h = (refl, refl)
word_prefix (d ∷ ds) rest h =
    let space : is_space d ≡ false = no_space d h.0 in
    let (w, r) = word_prefix ds rest h.1 in (rw space (ap (λ (l : List ℕ). d ∷ l) w), rw space r)
  where
    no_space : (d : ℕ) → IsDigit d → is_space d ≡ false
    no_space d h = ground arith

-- The word of a row's line, and what follows it
scan_word_label :
    (row : Row) (rest : List ℕ) → word_at (label row ++ 32 ∷ rest) ≡ some (label row, 32 ∷ rest)
scan_word_label row rest =
    let (w, r) = word_prefix (name_text row.name) rest (name_text-IsDigit row.name) in
    rw (w, r) refl

-- Which row an id asks for: -1 is that of all processors.
abbrev pub is_row : ℤ → Option ℕ → Bool
is_row id none = eqb_ℤ (negsuc 0) id
is_row id (some k) = eqb_ℤ (pos k) id

first_digit : (ds : List ℕ) → All IsDigit ds → 0 < length ds → (get_or ds 0 0 == 0) ≡ false
first_digit [] h some_digit = absurd (omega arith)
first_digit (d ∷ ds) h some_digit = (IsDigit-IsPlain d h.0).0

if_not {ℓ} : {A : Type ℓ} (b : Bool) (x y : A) → (if not b then x else y) ≡ (if b then y else x)
if_not true x y = refl
if_not false x y = refl

turn_name :
    (id : ℤ) (name : Option ℕ)
    → turn id (99 ∷ 112 ∷ 117 ∷ name_text name) ≡ (if is_row id name then take_times else next_line)
turn_name id none = if_not (eqb_ℤ (negsuc 0) id) next_line take_times
turn_name id (some k) =
    let digit =
      first_digit (digits (suc k) k []) (printed_digits k)
        (digits-length (suc k) k [] (omega arith)) in
    rw (digit, scan_signed-decimal (pos 0) k [] tt) refl

pub turn_lem :
    (id : ℤ) (row : Row)
    → turn id (label row) ≡ (if is_row id row.name then take_times else next_line)
turn_lem id row = turn_name id row.name

abbrev numbers_of : Row → List ℕ
numbers_of row = gap row.name (print_times row.times (10 ∷ []))

gap-append :
    (name : Option ℕ) (ts rest : List ℕ)
    → gap name (print_times ts []) ++ rest ≡ gap name (print_times ts rest)
gap-append none ts rest = ap (λ (l : List ℕ). 32 ∷ l) (sym (print_times-append ts rest))
gap-append (some k) ts rest = sym (print_times-append ts rest)

line_parts : (row : Row) → row_line row ++ 10 ∷ [] ≡ label row ++ numbers_of row
line_parts row =
    append_assoc (label row) (gap row.name (print_times row.times [])) (10 ∷ [])
    ∙ ap (λ (l : List ℕ). label row ++ l) (gap-append row.name row.times (10 ∷ []))

gap_space :
    (name : Option ℕ) (ts rest : List ℕ)
    → 7 ≤ length ts
    → (r : List ℕ) × (gap name (print_times ts rest) ≡ 32 ∷ r)
unfolding print_times
gap_space none ts rest h = (print_times ts rest, refl)
gap_space (some k) [] rest h = absurd (omega arith)
gap_space (some k) (t ∷ ts) rest h = (digits (suc t) t (print_times ts rest), refl)

gap_fields :
    (name : Option ℕ) (olds : List ℤ) (ts : List ℕ)
    → length olds ≤ length ts
    → scan_fields olds (gap name (print_times ts (10 ∷ []))) ≡ map pos (take (length olds) ts)
gap_fields none olds ts h =
    scan_fields_space olds (print_times ts (10 ∷ []))
    ∙ scan_fields-print_times olds ts (10 ∷ []) h refl
gap_fields (some k) olds ts h = scan_fields-print_times olds ts (10 ∷ []) h refl

scan_word_lem :
    (row : Row)
    → 7 ≤ length row.times
    → scan_word (row_line row ++ 10 ∷ []) ≡ some (label row, numbers_of row)
unfolding scan_word
scan_word_lem row many =
    let (r, e) = gap_space row.name row.times (10 ∷ []) many in
    ap (λ (l : List ℕ). word_at (skip_spaces l))
      (until_nul_line (row_line row) (row_line-IsPlain row))
    ∙ ap word_at (line_parts row)
    ∙ ap (λ (l : List ℕ). word_at (label row ++ l)) e
    ∙ scan_word_label row r
    ∙ ap (λ (l : List ℕ). some (label row, l)) (sym e)

-- What a row's line leaves in the variables
pub scan_line_lem :
    (old : Scanned) (row : Row)
    → Fits row
    → length old.times ≡ 7
    → scan_line old (row_line row ++ 10 ∷ [])
      ≡ some (record { cpu = label row; times = map pos (take 7 row.times) })
unfolding scan_line
scan_line_lem old row (fits, short, many) seven =
    let small : ltb (length (label row)) 32 ≡ true = ground arith in
    let enough : length old.times ≤ length row.times = omega (arith, seven, many) in
    ap (scan_into old) (scan_word_lem row many)
    ∙ rw small (
        ap (λ (l : List ℤ). some (record { cpu = label row; times = l }))
          (gap_fields row.name old.times row.times enough
            ∙ ap (λ (k : ℕ). map pos (take k row.times)) seven))
