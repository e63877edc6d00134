-- ===== src/ImageFile/Places.antt =====
-- A part of a buffer that bytes are stored in.
use mathlib.Core.Path.{subst}
use general_purpose_library.Prelude.{
  ℕ, zero, suc, ◌+◌, ◌≤◌, ◌≡◌, refl, ap, ◌∙◌, arith, true, some, List, [], ◌∷◌, ◌++◌, leb, length,
  take, drop, length-append, length-take_le,
}
use general_purpose_library.Prelude.Slices.{take_prefix, drop_prefix, length-drop}
use general_purpose_library.FileUtils.{store}

-- A part of a list that is before a place does not see what comes after it.
pub slice_before :
    (n q p : ℕ) (xs rest : List ℕ)
    → q + n ≤ p
    → p ≤ length xs
    → take n (drop q (take p xs ++ rest)) ≡ take n (drop q xs)
slice_before zero q p xs rest h k = refl
slice_before (suc n) q zero xs rest h k = absurd (omega arith)
slice_before (suc n) q (suc p) [] rest h k = absurd (omega arith)
slice_before (suc n) zero (suc p) (x ∷ xs) rest h k =
    ap (λ (t : List ℕ). x ∷ t) (slice_before n zero p xs rest (omega arith) (omega arith))
slice_before (suc n) (suc q) (suc p) (x ∷ xs) rest h k =
    slice_before (suc n) q p xs rest (omega arith) (omega arith)

-- The buffer after a store inside it
abbrev pub placed : List ℕ → ℕ → List ℕ → List ℕ
placed buf p bytes = take p buf ++ (bytes ++ drop (p + length bytes) buf)

pub store_inside :
    (buf : List ℕ) (p : ℕ) (bytes : List ℕ)
    → p + length bytes ≤ length buf
    → store buf p bytes ≡ some (placed buf p bytes)
store_inside buf p bytes h =
    let e : leb (p + length bytes) (length buf) ≡ true = ground arith in rw e refl

pub length-placed :
    (buf : List ℕ) (p : ℕ) (bytes : List ℕ)
    → p + length bytes ≤ length buf
    → length (placed buf p bytes) ≡ length buf
length-placed buf p bytes h =
    let a = length-append (take p buf) (bytes ++ drop (p + length bytes) buf) in
    let b = length-append bytes (drop (p + length bytes) buf) in
    let c = length-drop (p + length bytes) buf in
    let d = length-take_le p buf (omega arith) in omega arith

pub slice_placed :
    (buf : List ℕ) (p : ℕ) (bytes : List ℕ)
    → p + length bytes ≤ length buf
    → take (length bytes) (drop p (placed buf p bytes)) ≡ bytes
slice_placed buf p bytes h =
    let d : length (take p buf) + 0 ≡ p = omega (arith, length-take_le p buf (omega arith)) in
    let e = drop_prefix (take p buf) (bytes ++ drop (p + length bytes) buf) 0 in
    ap (λ (t : List ℕ). take (length bytes) t)
      (subst (λ (k : ℕ). drop k (placed buf p bytes) ≡ bytes ++ drop (p + length bytes) buf) d e)
    ∙ take_prefix bytes (drop (p + length bytes) buf)
