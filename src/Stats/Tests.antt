-- ===== src/Stats/Tests.antt =====
-- Three values, and the theorems on them.
use general_purpose_library.Prelude.{◌≡◌, ◌≤◌, refl, arith, List, [], ◌∷◌, ℤ, pos, negsuc, to_u64}
use general_purpose_library.Stats.{Stats, fresh, flush_batch, add_value, add_values}
use general_purpose_library.Stats.Counts.{never_full}
use general_purpose_library.Stats.Bounds.{average_between}

abbrev values : List ℤ
values = pos 4 ∷ pos 9 ∷ pos 5 ∷ []

-- The average of 4 and 9; and a negative value, which becomes the maximum.
two_runs :
    ((flush_batch (add_values fresh (pos 4 ∷ pos 9 ∷ []))).average ≡ 6)
    × ((add_value fresh (negsuc 0)).max ≡ 18446744073709551615)
unfolding add_value flush_batch add_values to_u64
two_runs = (refl, refl)

average_between_example :
    let printed = flush_batch (add_values fresh values) in
    (printed.min ≤ printed.average) × (printed.average ≤ printed.max)
average_between_example =
    average_between values (omega arith, (omega arith, (omega arith, tt))) (omega arith)
      (omega arith)

abbrev lowered : Stats
lowered = record fresh { nr_batch = 1; batch = 7; min = 7; max = 7; max_batch = pos 1 }

never_full_example :
    ((add_values lowered values).nr_samples ≡ lowered.nr_samples)
    × ((add_values lowered values).average ≡ lowered.average)
never_full_example =
    never_full values lowered 1 (tt, (tt, (tt, tt))) refl (omega arith) (omega arith) (omega arith)
