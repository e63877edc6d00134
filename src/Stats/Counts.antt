-- ===== src/Stats/Counts.antt =====
-- How many values the statistics count.
use general_purpose_library.Prelude.{
  ℕ, suc, ◌+◌, ◌^◌, ◌≤◌, ◌<◌, ◌≡◌, negsuc, All, to_u64, refl, arith, ◌∙◌, List, [], ◌∷◌, length, ℤ,
  pos,
}
use general_purpose_library.Stats.{Stats, flush_batch, add_value, add_values}

-- A value as the callers mean it
abbrev pub IsSample : ℤ → Type 0
IsSample (pos x) = x < 2 ^ 31
IsSample (negsuc n) = ⊥

-- A value that is not negative
abbrev pub IsNatural : ℤ → Type 0
IsNatural (pos x) = Unit {0}
IsNatural (negsuc n) = ⊥

-- The sum of the values that are not negative
abbrev pub sum_of : List ℤ → ℕ
sum_of [] = 0
sum_of (pos x ∷ vs) = x + sum_of vs
sum_of (negsuc n ∷ vs) = sum_of vs

flush_count : (s : Stats) → (flush_batch s).nr_samples ≡ s.nr_samples + s.nr_batch
unfolding flush_batch
flush_count s = ground arith

pub add_value_count :
    (s : Stats) (v : ℤ)
    → (add_value s v).nr_samples + (add_value s v).nr_batch ≡ suc (s.nr_samples + s.nr_batch)
unfolding add_value flush_batch
add_value_count s v = ground arith

-- Whatever values are added, and whenever batches are flushed between them, the number of samples
-- that stats_print shows is the number counted before, in samples and batch, and one for each
-- value.
pub add_values_count :
    (s : Stats) (vs : List ℤ)
    → (flush_batch (add_values s vs)).nr_samples ≡ s.nr_samples + s.nr_batch + length vs
unfolding add_values
add_values_count s [] = flush_count s ∙ omega arith
add_values_count s (v ∷ vs) =
    let rest = add_values_count (add_value s v) vs in let one = add_value_count s v in omega arith

-- With a full batch that is not noticed, the value goes into the same batch.
gathers :
    (s : Stats) (x m : ℕ)
    → s.max_batch ≡ pos m
    → m ≤ s.nr_batch
    → s.batch + x < 2 ^ 64
    → ((add_value s (pos x)).max_batch ≡ s.max_batch)
      × ((add_value s (pos x)).nr_batch ≡ suc s.nr_batch)
      × ((add_value s (pos x)).batch ≡ s.batch + x)
      × ((add_value s (pos x)).nr_samples ≡ s.nr_samples)
      × ((add_value s (pos x)).average ≡ s.average)
unfolding add_value to_u64
gathers s x m limit past fits =
    (ground arith, ground arith, ground arith, ground arith, ground arith)

-- Once a batch has at least max_batch values, later values that are not negative stay in it, as
-- long as it has fewer than 2^31 values and its sum is below 2^64: the samples and the average do
-- not change.
pub never_full :
    (vs : List ℤ) (s : Stats) (m : ℕ)
    → All IsNatural vs
    → s.max_batch ≡ pos m
    → m ≤ s.nr_batch
    → s.nr_batch + length vs < 2 ^ 31
    → s.batch + sum_of vs < 2 ^ 64
    → ((add_values s vs).nr_samples ≡ s.nr_samples) × ((add_values s vs).average ≡ s.average)
unfolding add_values
never_full [] s m samples limit past few fits = (refl, refl)
never_full (pos x ∷ vs) s m (h, samples) limit past few fits =
    let (same_limit, one_more, added, samples_kept, average_kept) =
      gathers s x m limit past (omega arith) in
    let (kept, same) =
      never_full vs (add_value s (pos x)) m samples (same_limit ∙ limit) (omega arith) (omega arith)
        (omega arith) in
    (kept ∙ samples_kept, same ∙ average_kept)
never_full (negsuc n ∷ vs) s m (h, samples) limit past few fits = absurd h
