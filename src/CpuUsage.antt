-- ===== src/CpuUsage.antt =====
-- cpu_usage.c: the times of a processor as /proc/stat gives them, and the end by SIGINT. A file is the
-- bytes that are read after `rewind`, a string its bytes without the terminator. `none` is a word
-- that is too long for the array, a NULL pointer that is used, or a loop that is out of rounds.
pub mod Scan
pub mod Rows
pub mod Stat
pub mod Refresh
mod Tests
use general_purpose_library.Decimal.{scan_signed}
use general_purpose_library.Prelude.{
  ◌>>=◌, ℕ, zero, suc, ◌+◌, ◌*◌, ◌/◌, Bool, true, false, ◌&&◌, ◌||◌, not, Option, none, some, List,
  [], ◌∷◌, ltb, ◌==◌, if◌then◌else◌, length, get_or, drop, ℤ, pos, negsuc, ◌+ℤ◌, eqb_ℤ,
}
use Scan.{fgets, scan_word, scan_fields}

pub record CpusInfo : Type 0 where
  pub id : ℤ
  pub run : ℤ
  pub total_time : ℤ
  pub idle_time : ℤ
  pub fp : Option ℕ

pub get_tick_count : ℕ → ℕ → ℕ
get_tick_count sec nsec = sec * 1000 + nsec / 1000000

abbrev pub starts_with_cpu : List ℕ → Bool
starts_with_cpu text = get_or text 0 0 == 99 && (get_or text 1 0 == 112 && get_or text 2 0 == 117)

-- strstr(cpu,"cpu")
abbrev pub has_cpu : List ℕ → Bool
has_cpu [] = false
has_cpu (c ∷ cs) = starts_with_cpu (c ∷ cs) || has_cpu cs

-- What the loop keeps between two lines: the array `cpu`, and user, nice, sys, idle, iowait, irq and
-- softirq in this order
pub record Scanned : Type 0 where
  pub cpu : List ℕ
  pub times : List ℤ

abbrev pub nothing_scanned : Scanned
nothing_scanned = record {
  cpu = [];
  times = pos 0 ∷ pos 0 ∷ pos 0 ∷ pos 0 ∷ pos 0 ∷ pos 0 ∷ pos 0 ∷ [];
}

-- The call of sscanf: a conversion that fails ends it and leaves the variables that are left.
abbrev pub scan_into : Scanned → Option (List ℕ × List ℕ) → Option Scanned
scan_into old none = some old
scan_into old (some (word, rest)) =
    if ltb (length word) 32
    then some (record { cpu = word; times = scan_fields old.times rest })
    else none

unfoldable pub scan_line : Scanned → List ℕ → Option Scanned
scan_line old line = scan_into old (scan_word line)

abbrev pub sum : List ℤ → ℤ
sum [] = pos 0
sum (t ∷ ts) = t +ℤ sum ts

-- `idle` is the fourth of the variables.
abbrev pub idle_of : List ℤ → ℤ
idle_of times = get_or times 3 (pos 0)

abbrev pub store_times : CpusInfo → List ℤ → CpusInfo
store_times cpus times = record cpus { total_time = sum times; idle_time = idle_of times }

-- What a line makes of the loop: the end without a change, the end with the times, or another line
pub data Turn : Type 0 where
  leave : Turn
  take_times : Turn
  next_line : Turn

abbrev pub turn : ℤ → List ℕ → Turn
turn id cpu =
    if not (has_cpu cpu)
    then leave
    else if get_or cpu 3 0 == 0
    then (if not (eqb_ℤ (negsuc 0) id) then next_line else take_times)
    else if eqb_ℤ (scan_signed (pos 0) (drop 3 cpu)) id
    then take_times
    else next_line

abbrev pub after_turn : CpusInfo → List ℤ → (again : Option CpusInfo) → Turn → Option CpusInfo
after_turn cpus times again leave = some cpus
after_turn cpus times again take_times = some (store_times cpus times)
after_turn cpus times again next_line = again

-- The loop over the lines, with rounds left
unfoldable pub refresh_loop : ℕ → List ℕ → Scanned → CpusInfo → Option CpusInfo
refresh_loop zero text old cpus = none
refresh_loop (suc rounds) [] old cpus = some cpus
refresh_loop (suc rounds) (c ∷ cs) old cpus = do
  let (line, rest) = fgets 127 (c ∷ cs)
  now ← scan_line old line
  after_turn cpus now.times (refresh_loop rounds rest now cpus) (turn cpus.id now.cpu)

-- As many rounds as the file has bytes are enough.
unfoldable pub cpus_refresh : List ℕ → CpusInfo → Option CpusInfo
cpus_refresh text cpus = refresh_loop (suc (length text)) text nothing_scanned cpus

module _ {ℓ} {W : Type ℓ} (fclose : ℕ → W → W) where
  abbrev pub close_of : Option ℕ → W → Option W
  close_of none w = none
  close_of (some fp) w = some (fclose fp w)

  -- The loop of int_handler over the processors
  pub int_handler : List CpusInfo → W → Option (List CpusInfo × W)
  int_handler [] w = some ([], w)
  int_handler (cpu ∷ cpus) w = do
    w1 ← close_of cpu.fp w
    (stopped, w2) ← int_handler cpus w1
    some (record cpu { run = pos 0 } ∷ stopped, w2)
