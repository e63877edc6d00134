-- ===== src/CpuUsage/Refresh.antt =====
-- What cpus_refresh of cpu_usage.c reads of /proc/stat.
use mathlib.Core.List.{map}
use general_purpose_library.CpuUsage.{
  CpusInfo, Scanned, nothing_scanned, scan_line, sum, idle_of, store_times, take_times, next_line,
  turn, after_turn, refresh_loop, cpus_refresh,
}
use general_purpose_library.CpuUsage.Rows.{fgets_line}
use general_purpose_library.CpuUsage.Scan.{fgets, scan_word}
use general_purpose_library.CpuUsage.Stat.{
  Row, label, row_line, stat_text, other_rows, Fits, row_line-IsPlain, is_row, turn_lem,
  scan_line_lem,
}
use general_purpose_library.Prelude.{
  ℕ, zero, suc, ◌+◌, ◌≤◌, ◌<◌, ◌≡◌, refl, ap, ◌∙◌, arith, true, false, Option, none, some, List, [],
  ◌∷◌, ◌++◌, if◌then◌else◌, ℤ, pos, ◌+ℤ◌, length, length-append, length-take_le, All, Bool-cases,
  inl, inr, take, get_or,
}

abbrev total_of : List ℕ → ℕ
total_of [] = 0
total_of (t ∷ ts) = t + total_of ts

-- The first row that an id asks for
abbrev find_row : ℤ → List Row → Option Row
find_row id [] = none
find_row id (row ∷ rows) = if is_row id row.name then some row else find_row id rows

-- The first seven times of a row are summed, and the fourth is that of doing nothing.
abbrev refreshed : CpusInfo → Option Row → CpusInfo
refreshed cpus none = cpus
refreshed cpus (some row) = record cpus {
  total_time = pos (total_of (take 7 row.times));
  idle_time = pos (get_or row.times 3 0);
}

pos-add : (a b : ℕ) → pos a +ℤ pos b ≡ pos (a + b)
unfolding ◌+ℤ◌
pos-add a b = ground arith

sum_pos : (ts : List ℕ) → sum (map pos ts) ≡ pos (total_of ts)
sum_pos [] = refl
sum_pos (t ∷ ts) = ap (λ (z : ℤ). pos t +ℤ z) (sum_pos ts) ∙ pos-add t (total_of ts)

one_of :
    (n m : ℕ) (ts : List ℕ) → n < m → get_or (map pos (take m ts)) n (pos 0) ≡ pos (get_or ts n 0)
one_of n zero ts h = absurd (omega arith)
one_of n (suc m) [] h = refl
one_of zero (suc m) (t ∷ ts) h = refl
one_of (suc n) (suc m) (t ∷ ts) h = one_of n m ts (omega arith)

store_times_lem :
    (cpus : CpusInfo) (row : Row)
    → store_times cpus (map pos (take 7 row.times)) ≡ refreshed cpus (some row)
store_times_lem cpus row =
    ap (λ (z : ℤ). record cpus { total_time = z; idle_time = idle_of (map pos (take 7 row.times)) })
      (sum_pos (take 7 row.times))
    ∙ ap (λ (z : ℤ). record cpus { total_time = pos (total_of (take 7 row.times)); idle_time = z })
        (one_of 3 7 row.times (omega arith))

length-map : (ts : List ℕ) → length (map pos ts) ≡ length ts
length-map [] = refl
length-map (t ∷ ts) = ap suc (length-map ts)

seven_times : (ts : List ℕ) → 7 ≤ length ts → length (map pos (take 7 ts)) ≡ 7
seven_times ts h = length-map (take 7 ts) ∙ length-take_le 7 ts h

module _ (cpus : CpusInfo) (old : Scanned) (row : Row) (rest : List ℕ) where
  abbrev now : Scanned
  now = record { cpu = label row; times = map pos (take 7 row.times) }

  asked_row :
      (rounds : ℕ)
      → Fits row
      → length old.times ≡ 7
      → is_row cpus.id row.name ≡ true
      → refresh_loop (suc rounds) (row_line row ++ 10 ∷ rest) old cpus
        ≡ some (store_times cpus now.times)
  unfolding refresh_loop
  asked_row rounds fits seven asked =
      let turned : turn cpus.id (label row) ≡ take_times = turn_lem cpus.id row ∙ rw asked refl in
      rw
        (
          refresh_loop,
          fgets_line 127 (row_line row) rest (row_line-IsPlain row) fits.0,
          scan_line_lem old row fits seven,
        )
        (ap (after_turn cpus now.times (refresh_loop rounds rest now cpus)) turned)

  other_row :
      (rounds : ℕ)
      → Fits row
      → length old.times ≡ 7
      → is_row cpus.id row.name ≡ false
      → refresh_loop (suc rounds) (row_line row ++ 10 ∷ rest) old cpus
        ≡ refresh_loop rounds rest now cpus
  unfolding refresh_loop
  other_row rounds fits seven other =
      let turned : turn cpus.id (label row) ≡ next_line = turn_lem cpus.id row ∙ rw other refl in
      rw
        (
          refresh_loop,
          fgets_line 127 (row_line row) rest (row_line-IsPlain row) fits.0,
          scan_line_lem old row fits seven,
        )
        (ap (after_turn cpus now.times (refresh_loop rounds rest now cpus)) turned)

last_rows :
    (rounds : ℕ) (more : Option (List ℕ)) (old : Scanned) (cpus : CpusInfo)
    → refresh_loop (suc rounds) (other_rows more) old cpus ≡ some cpus
unfolding refresh_loop fgets scan_line scan_word
last_rows rounds none old cpus = refl
last_rows rounds (some more) old cpus = refl

refresh_loop_lem :
    (rows : List Row) (rounds : ℕ) (more : Option (List ℕ)) (old : Scanned) (cpus : CpusInfo)
    → All Fits rows
    → length old.times ≡ 7
    → length rows < rounds
    → refresh_loop rounds (stat_text rows (other_rows more)) old cpus
      ≡ some (refreshed cpus (find_row cpus.id rows))
refresh_loop_lem rows zero more old cpus fit seven h = absurd (omega arith)
refresh_loop_lem [] (suc rounds) more old cpus fit seven h = last_rows rounds more old cpus
refresh_loop_lem (row ∷ rows) (suc rounds) more old cpus fit seven h =
    let rest = stat_text rows (other_rows more) in
    elim (Bool-cases (is_row cpus.id row.name)) [
      | inl asked ↦
          asked_row cpus old row rest rounds fit.0 seven asked
          ∙ ap some (store_times_lem cpus row)
          ∙ rw asked refl
      | inr other ↦
          other_row cpus old row rest rounds fit.0 seven other
          ∙ refresh_loop_lem rows rounds more (now cpus old row rest) cpus fit.1
              (seven_times row.times fit.0.2) (omega arith)
          ∙ rw other refl
    ]

rows_short : (rows : List Row) (rest : List ℕ) → length rows ≤ length (stat_text rows rest)
rows_short [] rest = omega arith
rows_short (row ∷ rows) rest =
    omega (arith, length-append (row_line row) (10 ∷ stat_text rows rest), rows_short rows rest)

-- On the text of /proc/stat with lines shorter than 127 bytes, at least seven times in each row of
-- a processor and then the row of the interrupts or nothing, cpus_refresh takes the sum of the
-- first seven times and the fourth time of the first row that the id asks for, where -1 asks for
-- the row of all processors, and changes nothing where no row is asked for.
pub cpus_refresh_lem :
    (rows : List Row) (more : Option (List ℕ)) (cpus : CpusInfo)
    → All Fits rows
    → cpus_refresh (stat_text rows (other_rows more)) cpus
      ≡ some (refreshed cpus (find_row cpus.id rows))
unfolding cpus_refresh
cpus_refresh_lem rows more cpus fit =
    refresh_loop_lem rows (suc (length (stat_text rows (other_rows more)))) more nothing_scanned
      cpus fit refl (omega (arith, rows_short rows (other_rows more)))
