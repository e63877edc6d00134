-- ===== src/Stats.antt =====
-- linux/utils/src/stats.c: running statistics, gathered in batches. `min`, `max` and `batch` wrap at
-- 2 ^ 64, and so does `average`, an int64_t that is kept as the uint64_t of its bits; the counts are
-- exact, since a result outside the range of `int` is undefined in C. Messages are left out.
pub mod Bounds
pub mod Counts
mod Tests
use general_purpose_library.Prelude.{
  ℕ, suc, ◌+◌, ◌-◌, Bool, ◌*◌, ◌/◌, ◌%◌, ◌^◌, ◌||◌, Option, none, some, List, [], ◌∷◌, ◌==◌, ltb,
  if◌then◌else◌, ℤ, pos, negsuc, eqb_ℤ, to_u64,
}

-- stats_t
pub record Stats : Type 0 where
  pub min : ℕ
  pub max : ℕ
  pub average : ℕ
  pub nr_samples : ℕ
  pub batch : ℕ
  pub nr_batch : ℕ
  pub max_batch : ℤ

-- Line 20 to 28, with `batch` and `nr_batch` back at 0
abbrev pub flushed_average : Stats → ℕ
flushed_average s =
    if s.nr_samples == 0
    then s.batch / s.nr_batch
    else ((s.average * s.nr_samples + s.batch) % 2 ^ 64) / (s.nr_samples + s.nr_batch)

pub flush_batch : Stats → Stats
flush_batch s = if s.nr_batch == 0 then s else record s {
  average = flushed_average s;
  nr_samples = s.nr_samples + s.nr_batch;
  nr_batch = 0;
  batch = 0;
}

-- What memset and the assignments after it leave, whatever was there
abbrev pub fresh : Stats
fresh = record {
  min = 2 ^ 64 - 1;
  max = 0;
  average = 0;
  nr_samples = 0;
  batch = 0;
  nr_batch = 0;
  max_batch = pos 32;
}

unfoldable pub stats_init : Option Stats → ℤ × Option Stats
stats_init none = (negsuc 0, none)
stats_init (some s) = (pos 0, some fresh)

-- MIN and MAX compare as uint64_t.
abbrev pub widen : Stats → ℕ → Stats
widen s x = record s {
  min = if ltb x s.min then x else s.min;
  max = if ltb s.max x then x else s.max;
}

-- Whether a batch is flushed before the value is added to it
abbrev pub is_full : Stats → ℕ → Bool
is_full s x = ltb ((s.batch + x) % 2 ^ 64) s.batch || eqb_ℤ (pos (suc s.nr_batch)) s.max_batch

abbrev pub accumulate : Stats → ℕ → Stats
accumulate s x = record s { batch = (s.batch + x) % 2 ^ 64; nr_batch = suc s.nr_batch }

pub add_value : Stats → ℤ → Stats
add_value s value =
    let x = to_u64 value in
    let widened = widen s x in
    accumulate (if is_full widened x then flush_batch widened else widened) x

unfoldable pub stats_add : Option Stats → ℤ → ℤ × Option Stats
stats_add none value = (negsuc 0, none)
stats_add (some s) value = (pos 0, some (add_value s value))

unfoldable pub stats_set_max_batch : Option Stats → ℤ → ℤ × Option Stats
stats_set_max_batch none max_batch = (negsuc 0, none)
stats_set_max_batch (some s) max_batch = (pos 0, some (record s { max_batch = max_batch }))

-- What is printed is the minimum, the maximum, the average and the number of samples.
unfoldable pub stats_print : Option Stats → Option Stats
stats_print none = none
stats_print (some s) = some (flush_batch s)

pub add_values : Stats → List ℤ → Stats
add_values s [] = s
add_values s (v ∷ vs) = add_values (add_value s v) vs
