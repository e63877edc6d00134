-- ===== src/TimeUtils.antt =====
-- linux/utils/src/time_utils.c: a clock in nanoseconds, microseconds and milliseconds. What the clock
-- reads, seconds and a part of a second, is an argument; the results are uint64_t.
use general_purpose_library.Prelude.{ℕ, ◌+◌, ◌*◌, ◌/◌, ◌%◌, ◌^◌, ◌<◌, ◌≡◌, arith}

-- timespec, or timeval where the part is in microseconds
record Reading : Type 0 where
  tv_sec : ℕ
  tv_part : ℕ

unfoldable get_sys_time_ns : Reading → ℕ
get_sys_time_ns ts = (ts.tv_sec * 1000000000 + ts.tv_part) % 2 ^ 64

unfoldable get_sys_time_us : Reading → ℕ
get_sys_time_us ts = get_sys_time_ns ts / 1000

unfoldable get_sys_time_ms : Reading → ℕ
get_sys_time_ms ts = get_sys_time_us ts / 1000

unfoldable get_current_time_us : Reading → ℕ
get_current_time_us tv = (tv.tv_sec * 1000000 + tv.tv_part) % 2 ^ 64

-- For 2^34 seconds the milliseconds are those of the seconds and of the part, each rounded down.
get_sys_time_ms_lem :
    (ts : Reading)
    → ts.tv_sec < 2 ^ 34
    → ts.tv_part < 1000000000
    → get_sys_time_ms ts ≡ ts.tv_sec * 1000 + ts.tv_part / 1000000
unfolding get_sys_time_ms get_sys_time_us get_sys_time_ns
get_sys_time_ms_lem ts sec part = omega arith
