-- ===== src/Sunday.antt =====
-- algorithm/SundayMatch.c: sunday_match. A string is the list of the bytes behind the pointer, the
-- terminator included; `none` is an index out of range. (`Sunday`, above it in the file, is an
-- earlier C++ form of the same routine.)
pub mod Table
pub mod Search
mod Tests
use general_purpose_library.Prelude.{
  ℕ, zero, suc, ◌+◌, ◌-◌, Bool, true, false, ◌&&◌, Option, none, some, List, ◌==◌, leb,
  if◌then◌else◌, get_elem?, set, replicate, ℤ, pos, negsuc,
}

infixl 5 ◌>>=◌
abbrev pub ◌>>=◌ {ℓ κ} : {A : Type ℓ} {B : Type κ} → Option A → (A → Option B) → Option B
none >>= k = none
some x >>= k = k x

-- A `char` as an index. Whether a plain `char` has a sign is the compiler's choice; where it has
-- one, a byte of 128 or more is a negative index.
pub char_index : (signed : Bool) → ℕ → Option ℕ
char_index signed byte = if signed && leb 128 byte then none else some byte

-- `for (a = 0; a < 256; a++) shift[a] = pattern_len + 1;` at index `a`, with `n` rounds left
pub default_loop : ℕ → ℕ → ℕ → List ℕ → List ℕ
default_loop pattern_len zero a shift = shift
default_loop pattern_len (suc n) a shift =
    default_loop pattern_len n (a + 1) (set shift a (pattern_len + 1))

module _ (signed : Bool) (pattern : List ℕ) (pattern_len : ℕ) where
  -- `for (i = 0; i < pattern_len; i++) shift[pattern[i]] = pattern_len - i;`
  pub pattern_loop : ℕ → ℕ → List ℕ → Option (List ℕ)
  pattern_loop zero i shift = some shift
  pattern_loop (suc n) i shift = do
    byte ← get_elem? pattern i
    index ← char_index signed byte
    pattern_loop n (i + 1) (set shift index (pattern_len - i))

  module _ (src : List ℕ) where
    -- `while (src[i + j] == pattern[j])`: whether the loop returns, with rounds left
    pub window_loop : ℕ → ℕ → ℕ → Option Bool
    window_loop zero i j = none
    window_loop (suc rounds) i j = do
      a ← get_elem? src (i + j)
      b ← get_elem? pattern j
      let rest = window_loop rounds i (j + 1)
      if a == b then (if leb pattern_len (j + 1) then some true else rest) else some false

    -- `while (i <= src_len - pattern_len)`, with rounds left
    pub search_loop : List ℕ → ℕ → ℕ → ℕ → Option ℤ
    search_loop shift src_len zero i = none
    search_loop shift src_len (suc rounds) i =
        if leb (i + pattern_len) src_len
        then (do
          hit ← window_loop (pattern_len + 1) i 0
          if hit then some (pos i) else (do
            next ← get_elem? src (i + pattern_len)
            index ← char_index signed next
            step ← get_elem? shift index
            search_loop shift src_len rounds (i + step)))
        else some (negsuc 0)

-- The lengths are those that callers pass, so they are not negative.
pub sunday_match : (signed : Bool) → List ℕ → ℕ → List ℕ → ℕ → Option ℤ
sunday_match signed src src_len pattern pattern_len = do
  shift ←
      pattern_loop signed pattern pattern_len pattern_len 0
        (default_loop pattern_len 256 0 (replicate 256 0))
  search_loop signed pattern pattern_len src shift src_len (src_len + 1) 0
