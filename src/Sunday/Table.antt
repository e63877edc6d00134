-- ===== src/Sunday/Table.antt =====
-- The shift table: what sunday_match may rely on at every byte.
use general_purpose_library.Prelude.{
  ℕ, zero, suc, ◌+◌, ◌-◌, ◌≤◌, ◌<◌, ◌≡◌, ◌≢◌, refl, arith, Bool, some, List, length, length-set,
  get_or, get_or-set_self, get_or-set_ne, get_elem?-eq-get_or, set, ◌∙◌,
}
use mathlib.Core.Path.{subst}
use native.Mathlib.Decide.{ℕ_discrete}
use general_purpose_library.Sunday.{char_index, default_loop, pattern_loop}

-- A byte that can be an index of the table.
abbrev pub IsIndex : Bool → ℕ → Type 0
IsIndex signed byte = (char_index signed byte ≡ some byte) × (byte < 256)

-- The table after the first `i` characters of the pattern: no entry is 0 or too large, and none
-- would move the window past a place where one of those characters meets the byte.
pub record IsShift (pattern : List ℕ) (m i : ℕ) (shift : List ℕ) : Type 0 where
  pub size : length shift ≡ 256
  pub positive : (c : ℕ) → c < 256 → 1 ≤ get_or shift c 0
  pub bounded : (c : ℕ) → c < 256 → get_or shift c 0 ≤ m + 1
  pub safe : (c j : ℕ) → c < 256 → j < i → get_or pattern j 0 ≡ c → get_or shift c 0 + j ≤ m

length-default_loop : (m n a : ℕ) (t : List ℕ) → length (default_loop m n a t) ≡ length t
unfolding default_loop
length-default_loop m zero a t = refl
length-default_loop m (suc n) a t =
    length-default_loop m n (a + 1) (set t a (m + 1)) ∙ length-set t a (m + 1)

default_loop-below :
    (m n a c : ℕ) (t : List ℕ) → c < a → get_or (default_loop m n a t) c 0 ≡ get_or t c 0
unfolding default_loop
default_loop-below m zero a c t h = refl
default_loop-below m (suc n) a c t h =
    default_loop-below m n (a + 1) c (set t a (m + 1)) (omega arith)
    ∙ get_or-set_ne t a c (m + 1) 0 (omega arith)

default_loop-at :
    (m n a c : ℕ) (t : List ℕ)
    → a ≤ c
    → c < a + n
    → a + n ≤ length t
    → get_or (default_loop m n a t) c 0 ≡ m + 1
unfolding default_loop
default_loop-at m zero a c t lo hi fits = absurd (omega arith)
default_loop-at m (suc n) a c t lo hi fits = elim (ℕ_discrete c a) [
  | yes e ↦ rw e (
      default_loop-below m n (a + 1) a (set t a (m + 1)) (omega arith)
      ∙ get_or-set_self t a (m + 1) 0 (omega arith))
  | no ne ↦
      default_loop-at m n (a + 1) c (set t a (m + 1)) (omega arith) (omega arith)
        (omega (arith, length-set t a (m + 1)))
]

pub default_loop-IsShift :
    (pattern : List ℕ) (m : ℕ) (t : List ℕ)
    → length t ≡ 256
    → IsShift pattern m 0 (default_loop m 256 0 t)
default_loop-IsShift pattern m t size =
    let at = λ (c : ℕ) (h : c < 256).
      default_loop-at m 256 0 c t (omega arith) (omega arith) (omega arith) in
    record {
      size = length-default_loop m 256 0 t ∙ size;
      positive = λ c h. omega (arith, at c h);
      bounded = λ c h. omega (arith, at c h);
      safe = λ c j h below e. absurd (omega arith);
    }

-- One character of the pattern.
set-IsShift :
    (pattern : List ℕ) (m i : ℕ) (shift : List ℕ)
    → IsShift pattern m i shift
    → i < m
    → get_or pattern i 0 < 256
    → IsShift pattern m (i + 1) (set shift (get_or pattern i 0) (m - i))
set-IsShift pattern m i shift old below byte =
    let p = get_or pattern i 0 in
    let here : get_or (set shift p (m - i)) p 0 ≡ m - i =
      get_or-set_self shift p (m - i) 0 (omega (arith, old.size)) in
    let there = λ (c : ℕ) (ne : p ≢ c). get_or-set_ne shift p c (m - i) 0 ne in
    record {
      size = length-set shift p (m - i) ∙ old.size;
      positive = λ c h. elim (ℕ_discrete p c) [
        | yes e ↦ rw (← e) (omega (arith, here))
        | no ne ↦ omega (arith, there c ne, old.positive c h)
      ];
      bounded = λ c h. elim (ℕ_discrete p c) [
        | yes e ↦ rw (← e) (omega (arith, here))
        | no ne ↦ omega (arith, there c ne, old.bounded c h)
      ];
      safe = λ c j h b e. elim (ℕ_discrete p c) [
        | yes same ↦ rw (← same) (omega (arith, here))
        | no ne ↦ elim (ℕ_discrete j i) [
          | yes last ↦ absurd (ne (rw last at e))
          | no earlier ↦ omega (arith, there c ne, old.safe c j h (omega arith) e)
        ]
      ];
    }

pub pattern_loop-IsShift :
    (signed : Bool) (pattern : List ℕ) (m n i : ℕ) (shift : List ℕ)
    → ((j : ℕ) → j < m → IsIndex signed (get_or pattern j 0))
    → m ≤ length pattern
    → i + n ≡ m
    → IsShift pattern m i shift
    → (final : List ℕ) × (pattern_loop signed pattern m n i shift ≡ some final)
      × IsShift pattern m m final
unfolding pattern_loop
pattern_loop-IsShift signed pattern m zero i shift ok fits e good =
    let last : i ≡ m = omega arith in
    (shift, refl, subst (λ k. IsShift pattern m k shift) last good)
pattern_loop-IsShift signed pattern m (suc n) i shift ok fits e good =
    let p = get_or pattern i 0 in
    let is_index = ok i (omega arith) in
    rw (get_elem?-eq-get_or pattern i 0 (omega arith), is_index.0)
      (pattern_loop-IsShift signed pattern m n (i + 1) (set shift p (m - i)) ok fits (omega arith)
        (set-IsShift pattern m i shift good (omega arith) is_index.1))
