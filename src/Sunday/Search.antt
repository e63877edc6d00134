-- ===== src/Sunday/Search.antt =====
-- sunday_match finds the first occurrence, or reports that there is none.
use general_purpose_library.Prelude.{
  ℕ, zero, suc, ◌+◌, ◌≤◌, ◌<◌, ◌-◌, ◌≡◌, ◌≢◌, refl, sym, arith, Bool, true, false, Option, some,
  List, length, get_or, get_elem?, get_elem?-eq-get_or, if◌then◌else◌, none, ==_iff, ne→==-false,
  le→leb, lt→leb-false, replicate, set, ℤ, pos, negsuc,
}
use native.Mathlib.Decide.{ℕ_discrete, dec_le, dec_lt}
use general_purpose_library.Sunday.{
  ◌>>=◌, char_index, window_loop, search_loop, pattern_loop, default_loop, sunday_match,
}
use general_purpose_library.Sunday.Table.{
  IsIndex, IsShift, default_loop-IsShift, pattern_loop-IsShift,
}

-- The pattern of length `m` stands in the text at `i`.
abbrev pub OccursAt : List ℕ → List ℕ → ℕ → ℕ → Type 0
OccursAt src pattern m i = (j : ℕ) → j < m → get_or src (i + j) 0 ≡ get_or pattern j 0

-- What a search from the left should return: the first place, or -1 where there is none.
pub data Finds (src : List ℕ) (n : ℕ) (pattern : List ℕ) (m : ℕ) : Option ℤ → Type 0 where
  first :
      {i : ℕ}
      → i + m ≤ n
      → OccursAt src pattern m i
      → ((k : ℕ) → k < i → ¬ OccursAt src pattern m k)
      → Finds src n pattern m (some (pos i))
  nowhere :
      ((k : ℕ) → k + m ≤ n → ¬ OccursAt src pattern m k) → Finds src n pattern m (some (negsuc 0))

-- What the inner loop answers at character `j` of the window at `i`.
data Window (src pattern : List ℕ) (m i j : ℕ) : Option Bool → Type 0 where
  agrees :
      ((k : ℕ) → j ≤ k → k < m → get_or src (i + k) 0 ≡ get_or pattern k 0)
      → Window src pattern m i j (some true)
  differs :
      (k : ℕ)
      → k < m
      → get_or src (i + k) 0 ≢ get_or pattern k 0
      → Window src pattern m i j (some false)

Window-earlier :
    {src pattern : List ℕ} {m i j : ℕ} {r : Option Bool}
    → get_or src (i + j) 0 ≡ get_or pattern j 0
    → Window src pattern m i (j + 1) r
    → Window src pattern m i j r
Window-earlier {src} {pattern} {j = j} e (agrees rest) =
    agrees
      λ k lo hi. elim (ℕ_discrete k j) [ yes same ↦ rw same e | no ne ↦ rest k (omega arith) hi ]
Window-earlier e (differs k h ne) = differs k h ne

module _ (signed : Bool) (src pattern : List ℕ) (n m : ℕ) (nonempty : 0 < m)
    (text_fits : n < length src) (pattern_fits : m ≤ length pattern)
    (src_ok : (k : ℕ) → k ≤ n → IsIndex signed (get_or src k 0)) where
  window_loop-Window :
      (rounds i j : ℕ)
      → j < m
      → m ≤ j + rounds
      → i + m ≤ n
      → Window src pattern m i j (window_loop signed pattern m src rounds i j)
  unfolding window_loop
  window_loop-Window zero i j jm enough fits = absurd (omega arith)
  window_loop-Window (suc rounds) i j jm enough fits =
      let a = get_or src (i + j) 0 in
      let b = get_or pattern j 0 in
      rw
        (
          get_elem?-eq-get_or src (i + j) 0 (omega arith),
          get_elem?-eq-get_or pattern j 0 (omega arith),
        )
        (elim (ℕ_discrete a b) [
          | no ne ↦ rw (ne→==-false a b ne) (differs j jm ne)
          | yes e ↦ rw ((==_iff a b).1 e) (elim (dec_le m (j + 1)) [
            | yes last ↦
                rw (le→leb m (j + 1) last)
                  (Window-earlier e (agrees λ k lo hi. absurd (omega arith)))
            | no more ↦ rw (lt→leb-false m (j + 1) (omega arith)) (
                Window-earlier e
                  (window_loop-Window rounds i (j + 1) (omega arith) (omega arith) fits))
          ])
        ])

  -- The window may move by the entry of the character behind it: no occurrence lies in between.
  none_between :
      (shift : List ℕ) (i k : ℕ)
      → IsShift pattern m m shift
      → i + m ≤ n
      → i < k
      → k < i + get_or shift (get_or src (i + m) 0) 0
      → ¬ OccursAt src pattern m k
  none_between shift i k good fits lo hi occurs =
      let c = get_or src (i + m) 0 in
      let byte : c < 256 = (src_ok (i + m) fits).1 in
      let j = i + m - k in
      let j_in : j < m = omega (arith, good.bounded c byte) in
      let place : k + j ≡ i + m = omega (arith, good.bounded c byte) in
      let meets : c ≡ get_or pattern j 0 = rw place at (occurs j j_in) in
      absurd (omega (arith, good.safe c j byte j_in (sym meets), good.bounded c byte))

  search_loop-Finds :
      (shift : List ℕ) (rounds i : ℕ)
      → IsShift pattern m m shift
      → 0 < rounds
      → n < i + rounds
      → ((k : ℕ) → k < i → ¬ OccursAt src pattern m k)
      → Finds src n pattern m (search_loop signed pattern m src shift n rounds i)
  unfolding search_loop
  search_loop-Finds shift zero i good some_left enough before = absurd (omega arith)
  search_loop-Finds shift (suc rounds) i good some_left enough before = elim (dec_le (i + m) n) [
    | no beyond ↦ rw (lt→leb-false (i + m) n (omega arith)) (nowhere λ k h. before k (omega arith))
    | yes fits ↦ rw (le→leb (i + m) n fits) (
        answer (window_loop-Window (m + 1) i 0 nonempty (omega arith) fits) fits (λ h.
          search_loop-Finds shift rounds (i + step) good (omega arith)
            (omega (arith, good.positive c (src_ok (i + m) fits).1)) h))
  ]
    where
      c : ℕ
      c = get_or src (i + m) 0

      step : ℕ
      step = get_or shift c 0

      moved :
          i + m ≤ n
          → (k : ℕ) → k < m
          → get_or src (i + k) 0 ≢ get_or pattern k 0
          → (k' : ℕ) → k' < i + step
          → ¬ OccursAt src pattern m k'
      moved fits k h ne k' lt occurs = elim (dec_lt k' i) [
        | yes lower ↦ before k' lower occurs
        | no upper ↦ elim (ℕ_discrete k' i) [
          | yes same ↦ ne (rw same at (occurs k h))
          | no later ↦ none_between shift i k' good fits (omega arith) lt occurs
        ]
      ]

      answer :
          {r : Option Bool}
          → Window src pattern m i 0 r
          → i + m ≤ n
          → (((k : ℕ) → k < i + step → ¬ OccursAt src pattern m k)
              → Finds src n pattern m (search_loop signed pattern m src shift n rounds (i + step)))
          → Finds src n pattern m (
              r >>= λ hit.
              if hit
              then some (pos i)
              else (get_elem? src (i + m) >>= λ next. char_index signed next >>= λ index.
                  get_elem? shift index >>= λ s.
                  search_loop signed pattern m src shift n rounds (i + s)))
      answer (agrees all) fits rest = first fits (λ j h. all j (omega arith) h) before
      answer (differs k h ne) fits rest =
          let (index, byte) = src_ok (i + m) fits in
          rw
            (
              get_elem?-eq-get_or src (i + m) 0 (omega arith),
              index,
              get_elem?-eq-get_or shift c 0 (omega (arith, good.size)),
            )
            (rest (moved fits k h ne))

-- For a pattern of at least one byte whose bytes, like those of the text and the byte after it,
-- are indices of the shift table, sunday_match ends, reads nothing out of range, and returns the
-- first place where the pattern occurs in the text, or -1 when it occurs nowhere.
pub sunday_match-Finds :
    (signed : Bool) (src pattern : List ℕ) (n m : ℕ)
    → 0 < m
    → n < length src
    → m ≤ length pattern
    → ((k : ℕ) → k ≤ n → IsIndex signed (get_or src k 0))
    → ((k : ℕ) → k < m → IsIndex signed (get_or pattern k 0))
    → Finds src n pattern m (sunday_match signed src n pattern m)
unfolding sunday_match
sunday_match-Finds signed src pattern n m nonempty text_fits pattern_fits src_ok pattern_ok =
    let (shift, built, good) =
      pattern_loop-IsShift signed pattern m m 0 (default_loop m 256 0 (replicate 256 0)) pattern_ok
        pattern_fits (omega arith) (default_loop-IsShift pattern m (replicate 256 0) refl) in
    rw built (
      search_loop-Finds signed src pattern n m nonempty text_fits pattern_fits src_ok shift (n + 1)
        0 good (omega arith) (omega arith) (λ k h. absurd (omega arith)))

pattern_loop_negative :
    (pattern : List ℕ) (m rounds k i : ℕ) (shift : List ℕ)
    → k ≤ i
    → i < k + rounds
    → k + rounds ≤ length pattern
    → 128 ≤ get_or pattern i 0
    → pattern_loop true pattern m rounds k shift ≡ none
unfolding pattern_loop char_index
pattern_loop_negative pattern m zero k i shift lo hi fits high = absurd (omega arith)
pattern_loop_negative pattern m (suc rounds) k i shift lo hi fits high =
    rw (get_elem?-eq-get_or pattern k 0 (omega arith)) (elim (dec_le 128 (get_or pattern k 0)) [
      | yes here ↦ rw (le→leb 128 (get_or pattern k 0) here) refl
      | no small ↦ rw (lt→leb-false 128 (get_or pattern k 0) (omega arith)) (
          pattern_loop_negative pattern m rounds (k + 1) i (set shift (get_or pattern k 0) (m - k))
            (later small) (omega arith) (omega arith) high)
    ])
  where
    later : ¬ (128 ≤ get_or pattern k 0) → k + 1 ≤ i
    later small = elim (ℕ_discrete k i) [
      | yes same ↦ absurd (small (rw same high))
      | no ne ↦ omega arith
    ]

-- Where plain char is signed, a pattern with a byte of 128 or more makes sunday_match write
-- outside the shift table, whatever the text is.
pub sunday_match_negative_index :
    (src pattern : List ℕ) (n m i : ℕ)
    → i < m
    → m ≤ length pattern
    → 128 ≤ get_or pattern i 0
    → sunday_match true src n pattern m ≡ none
unfolding sunday_match
sunday_match_negative_index src pattern n m i below fits high =
    rw
      (pattern_loop_negative pattern m m 0 i (default_loop m 256 0 (replicate 256 0)) (omega arith)
        (omega arith) (omega arith) high)
      refl
