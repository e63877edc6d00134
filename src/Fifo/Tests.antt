-- ===== src/Fifo/Tests.antt =====
-- A queue of size 2 with three entries.
use general_purpose_library.Prelude.{
  ℕ, ◌≡◌, refl, arith, true, false, none, some, List, [], ◌∷◌, pos, ◌+ℤ◌, ◌-ℤ◌,
}
use general_purpose_library.KernelList.{plain, plain-List}
use general_purpose_library.Fifo.{Fifo, real_time_fifo_init, real_time_fifo_put}
use general_purpose_library.Fifo.Refine.{Call, put, get, run, run-real_time_fifo}

-- What is released is listed, last first.
abbrev release : ℕ → List ℕ → List ℕ
release x log = x ∷ log

abbrev unset : Fifo (List ℕ)
unset = record {
  taken_in = pos 7;
  out = pos 0;
  size = pos 0;
  head = 9 ∷ [];
  has_release = false;
  is_initial = false;
}

abbrev calls : List Call
calls = put 1 ∷ put 2 ∷ put 3 ∷ get ∷ []

-- With size 0 the second entry pushes the first out.
size_zero :
    (real_time_fifo_put plain release
      (some 2)
      (some (record unset {
        taken_in = pos 1;
        out = pos 1;
        head = 1 ∷ [];
        has_release = true;
        is_initial = true;
      }))
      []).2
    ≡ 1 ∷ []
unfolding real_time_fifo_put ◌+ℤ◌ ◌-ℤ◌
size_zero = refl

run-real_time_fifo_example :
    run plain release (real_time_fifo_init plain release (some unset) (pos 2) true).1 [] calls
    ≡ (pos 0, none) ∷ (pos 0, none) ∷ (pos 0, none) ∷ (pos 0, some 1) ∷ []
run-real_time_fifo_example =
    run-real_time_fifo plain release plain-List calls unset 2 true [] (omega arith) (omega arith)
