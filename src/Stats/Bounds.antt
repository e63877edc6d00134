-- ===== src/Stats/Bounds.antt =====
-- The average lies between the minimum and the maximum.
use general_purpose_library.Prelude.{
  ℕ, suc, ◌+◌, ◌*◌, ◌/◌, ◌%◌, ◌^◌, ◌≤◌, ◌<◌, ◌≡◌, ◌≢◌, ◌⊎◌, false, true, ◌==◌, inl, inr, refl,
  arith, ◌∙◌, List, [], ◌∷◌, length, All, if◌then◌else◌, ℤ, pos, negsuc, to_u64, Bool,
}
use native.Mathlib.Nat.{mul-le-mul_left, mul-le-mul, le-div_iff_mul-le, div-le_of_le-mul}
use native.Mathlib.Decide.{ℕ_discrete}
use general_purpose_library.Stats.{
  Stats, flush_batch, flushed_average, add_value, add_values, fresh, widen, is_full, accumulate,
}
use general_purpose_library.Stats.Counts.{IsSample, add_value_count, add_values_count}

pub record IsBounded (s : Stats) : Type 0 where
  pub batch_low : s.nr_batch * s.min ≤ s.batch
  pub batch_high : s.batch ≤ s.nr_batch * s.max
  pub average : (s.nr_samples ≡ 0) ⊎ ((s.min ≤ s.average) × (s.average ≤ s.max))
  pub max_int : s.max < 2 ^ 31
  pub samples : s.nr_samples + s.nr_batch < 2 ^ 31

-- A quotient of a sum of `n` numbers between two bounds lies between them.
between :
    (n lo hi total : ℕ)
    → 0 < n
    → n * lo ≤ total
    → total ≤ n * hi
    → (lo ≤ total / n) × (total / n ≤ hi)
between n lo hi total h low high =
    let low' : lo * n ≤ total = omega arith in
    ((le-div_iff_mul-le h).1 low', div-le_of_le-mul n high)

-- The sum that is flushed later than the first time
later_sum :
    (average samples batch count lo hi : ℕ)
    → lo ≤ average
    → average ≤ hi
    → count * lo ≤ batch
    → batch ≤ count * hi
    → ((samples + count) * lo ≤ average * samples + batch)
      × (average * samples + batch ≤ (samples + count) * hi)
later_sum average samples batch count lo hi low high below above =
    let a : samples * lo ≤ samples * average = mul-le-mul_left samples low in
    let b : samples * average ≤ samples * hi = mul-le-mul_left samples high in
    let c : (samples + count) * lo ≡ samples * lo + count * lo = omega arith in
    let d : (samples + count) * hi ≡ samples * hi + count * hi = omega arith in
    let e : average * samples ≡ samples * average = omega arith in (omega arith, omega arith)

small :
    (samples count hi total : ℕ)
    → samples + count < 2 ^ 31
    → hi < 2 ^ 31
    → total ≤ (samples + count) * hi
    → total < 2 ^ 64
small samples count hi total few low bound =
    let size : (samples + count) * hi ≤ 2 ^ 31 * 2 ^ 31 =
      mul-le-mul {n₂ = 2 ^ 31} {m₂ = 2 ^ 31} (omega arith) (omega arith) in
    omega arith

first_average : (s : Stats) → s.nr_samples ≡ 0 → flushed_average s ≡ s.batch / s.nr_batch
first_average s none = ground arith

later_average :
    (s : Stats)
    → s.nr_samples ≢ 0
    → s.average * s.nr_samples + s.batch < 2 ^ 64
    → flushed_average s ≡ (s.average * s.nr_samples + s.batch) / (s.nr_samples + s.nr_batch)
later_average s some_before fits =
    let same : (s.average * s.nr_samples + s.batch) % 2 ^ 64 ≡ s.average * s.nr_samples + s.batch =
      omega arith in
    rw same (ground arith)

flushed_average_lem :
    (s : Stats)
    → IsBounded s
    → 0 < s.nr_batch
    → (s.min ≤ flushed_average s) × (flushed_average s ≤ s.max)
flushed_average_lem s bounded h = elim (ℕ_discrete s.nr_samples 0) [
  | yes none ↦
      rw (first_average s none)
        (between s.nr_batch s.min s.max s.batch h bounded.batch_low bounded.batch_high)
  | no some_before ↦ elim bounded.average [
    | inl none ↦ absurd (some_before none)
    | inr (low, high) ↦
        let total = s.average * s.nr_samples + s.batch in
        let (above, below) =
          later_sum s.average s.nr_samples s.batch s.nr_batch s.min s.max low high bounded.batch_low
            bounded.batch_high in
        let fits =
          small s.nr_samples s.nr_batch s.max total bounded.samples bounded.max_int below in
        rw (later_average s some_before fits)
          (between (s.nr_samples + s.nr_batch) s.min s.max total (omega arith) above below)
  ]
]

flush-IsBounded : (s : Stats) → IsBounded s → IsBounded (flush_batch s)
unfolding flush_batch
flush-IsBounded s bounded = elim (ℕ_discrete s.nr_batch 0) [
  | yes none ↦ let test : (s.nr_batch == 0) ≡ true = ground arith in rw test bounded
  | no some ↦
      let test : (s.nr_batch == 0) ≡ false = ground arith in
      rw test (record {
        batch_low = omega arith;
        batch_high = omega arith;
        average = inr (flushed_average_lem s bounded (omega arith));
        max_int = bounded.max_int;
        samples = omega (arith, bounded.samples);
      })
]

widen-IsBounded : (s : Stats) (x : ℕ) → x < 2 ^ 31 → IsBounded s → IsBounded (widen s x)
widen-IsBounded s x h bounded =
    let low : (widen s x).min ≤ s.min = ground arith in
    let high : s.max ≤ (widen s x).max = ground arith in
    let a = mul-le-mul_left s.nr_batch low in
    let b = mul-le-mul_left s.nr_batch high in
    record {
      batch_low = omega (arith, bounded.batch_low);
      batch_high = omega (arith, bounded.batch_high);
      average = elim bounded.average [
        | inl none ↦ inl none
        | inr (below, above) ↦ inr (omega arith, omega arith)
      ];
      max_int = let m = bounded.max_int in ground arith;
      samples = bounded.samples;
    }

accumulate-IsBounded :
    (s : Stats) (x : ℕ)
    → s.min ≤ x
    → x ≤ s.max
    → s.nr_samples + s.nr_batch + 1 < 2 ^ 31
    → IsBounded s
    → IsBounded (accumulate s x)
accumulate-IsBounded s x low high room bounded =
    let some_room : s.nr_batch + 1 < 2 ^ 31 = omega arith in
    let above : s.batch + x ≤ suc s.nr_batch * s.max = omega (arith, bounded.batch_high) in
    let fits : s.batch + x < 2 ^ 64 =
      small 0 (suc s.nr_batch) s.max (s.batch + x) (omega arith) bounded.max_int (omega arith) in
    let same : (s.batch + x) % 2 ^ 64 ≡ s.batch + x = omega arith in
    record {
      batch_low = rw same (omega (arith, bounded.batch_low));
      batch_high = rw same above;
      average = bounded.average;
      max_int = bounded.max_int;
      samples = omega arith;
    }

flush_keeps :
    (s : Stats)
    → ((flush_batch s).min ≡ s.min)
      × ((flush_batch s).max ≡ s.max)
      × ((flush_batch s).nr_samples + (flush_batch s).nr_batch ≡ s.nr_samples + s.nr_batch)
unfolding flush_batch
flush_keeps s = (ground arith, ground arith, ground arith)

either-IsBounded :
    (full : Bool) (s : Stats) (x : ℕ)
    → s.min ≤ x
    → x ≤ s.max
    → s.nr_samples + s.nr_batch + 1 < 2 ^ 31
    → IsBounded s
    → IsBounded (accumulate (if full then flush_batch s else s) x)
either-IsBounded false s x low high room bounded = accumulate-IsBounded s x low high room bounded
either-IsBounded true s x low high room bounded =
    let (same_min, same_max, same_count) = flush_keeps s in
    accumulate-IsBounded (flush_batch s) x (omega arith) (omega arith) (omega arith)
      (flush-IsBounded s bounded)

add_value-IsBounded :
    (s : Stats) (x : ℕ)
    → x < 2 ^ 31
    → s.nr_samples + s.nr_batch + 1 < 2 ^ 31
    → IsBounded s
    → IsBounded (add_value s (pos x))
unfolding add_value to_u64
add_value-IsBounded s x h room bounded =
    either-IsBounded (is_full (widen s x) x) (widen s x) x (ground arith) (ground arith) room
      (widen-IsBounded s x h bounded)

pub add_values-IsBounded :
    (vs : List ℤ) (s : Stats)
    → All IsSample vs
    → s.nr_samples + s.nr_batch + length vs < 2 ^ 31
    → IsBounded s
    → IsBounded (add_values s vs)
unfolding add_values
add_values-IsBounded [] s samples room bounded = bounded
add_values-IsBounded (pos x ∷ vs) s (h, samples) room bounded =
    let one = add_value_count s (pos x) in
    add_values-IsBounded vs (add_value s (pos x)) samples (omega arith)
      (add_value-IsBounded s x h (omega arith) bounded)
add_values-IsBounded (negsuc n ∷ vs) s (h, samples) room bounded = absurd h

fresh-IsBounded : IsBounded fresh
fresh-IsBounded = record {
  batch_low = omega arith;
  batch_high = omega arith;
  average = inl refl;
  max_int = omega arith;
  samples = omega arith;
}

-- After stats_init and at least one and fewer than 2^31 values that are not negative, the average
-- that stats_print shows lies between the minimum and the maximum.
pub average_between :
    (vs : List ℤ)
    → All IsSample vs
    → 0 < length vs
    → length vs < 2 ^ 31
    → let printed = flush_batch (add_values fresh vs) in
      (printed.min ≤ printed.average) × (printed.average ≤ printed.max)
average_between vs samples some_values room =
    let added = add_values fresh vs in
    let bounded =
      flush-IsBounded added (add_values-IsBounded vs fresh samples (omega arith) fresh-IsBounded) in
    let count : (flush_batch added).nr_samples ≡ length vs =
      add_values_count fresh vs ∙ omega arith in
    elim bounded.average [ inl none ↦ absurd (omega arith) | inr both ↦ both ]
