-- ===== src/CpuUsage/Tests.antt =====
-- Runs of cpu_usage.c on a short /proc/stat, and the theorems at it.
use general_purpose_library.CpuUsage.{
  CpusInfo, scan_line, refresh_loop, cpus_refresh, get_tick_count, int_handler,
}
use general_purpose_library.CpuUsage.Refresh.{cpus_refresh_lem}
use general_purpose_library.CpuUsage.Rows.{print_times}
use general_purpose_library.CpuUsage.Scan.{fgets, scan_word, scan_ld, scan_fields}
use general_purpose_library.CpuUsage.Stat.{Row, stat_text, other_rows}
use general_purpose_library.Decimal.{digits, scan_signed, signed_digits, scan_digits}
use general_purpose_library.Prelude.{
  ℕ, ◌≡◌, refl, arith, none, some, List, [], ◌∷◌, ℤ, pos, negsuc, ◌+ℤ◌,
}

abbrev processor : ℤ → CpusInfo
processor id = record { id = id; run = pos 1; total_time = pos 5; idle_time = pos 4; fp = some 3 }

abbrev rows : List Row
rows =
    record { name = none; times = 31 ∷ 2 ∷ 13 ∷ 40 ∷ 5 ∷ 6 ∷ 7 ∷ 0 ∷ [] }
    ∷ record { name = some 0; times = 30 ∷ 1 ∷ 10 ∷ 20 ∷ 5 ∷ 6 ∷ 7 ∷ 0 ∷ [] }
    ∷ record { name = some 1; times = 1 ∷ 1 ∷ 3 ∷ 20 ∷ 0 ∷ 0 ∷ 0 ∷ 0 ∷ [] }
    ∷ []

-- What follows "intr "
abbrev interrupts : List ℕ
interrupts = 55 ∷ 32 ∷ 48 ∷ 10 ∷ []

second :
    cpus_refresh (stat_text rows (other_rows (some interrupts))) (processor (pos 1))
    ≡ some (record (processor (pos 1)) { total_time = pos 25; idle_time = pos 20 })
unfolding cpus_refresh refresh_loop fgets scan_line scan_word scan_ld scan_fields print_times digits
    scan_signed signed_digits scan_digits ◌+ℤ◌
second = refl

-- A processor that has no row keeps its times.
absent :
    cpus_refresh (stat_text rows (other_rows none)) (processor (pos 2)) ≡ some (processor (pos 2))
unfolding cpus_refresh refresh_loop fgets scan_line scan_word scan_ld scan_fields print_times digits
    scan_signed signed_digits scan_digits ◌+ℤ◌
absent = refl

ticks : get_tick_count 2 1999999 ≡ 2001
unfolding get_tick_count
ticks = refl

-- A thread that has not opened its file yet
unopened : int_handler (λ fp w. fp ∷ w) (record (processor (pos 0)) { fp = none } ∷ []) [] ≡ none
unfolding int_handler
unopened = refl

cpus_refresh_lem_example :
    cpus_refresh (stat_text rows (other_rows (some interrupts))) (processor (negsuc 0))
    ≡ some (record (processor (negsuc 0)) { total_time = pos 104; idle_time = pos 40 })
unfolding print_times digits
cpus_refresh_lem_example = cpus_refresh_lem rows (some interrupts) (processor (negsuc 0)) (
  (omega arith, omega arith, omega arith),
  ((omega arith, omega arith, omega arith), ((omega arith, omega arith, omega arith), tt)),
)
