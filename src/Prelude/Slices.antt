-- ===== src/Prelude/Slices.antt =====
-- What `take` and `drop` leave of a list of numbers
use Prim.Native.Nat.{ℕ, zero, suc, ◌+◌, ◌-◌, ◌<◌, ◌≤◌}
use mathlib.Core.Path.{◌≡◌, refl, sym, ap, ◌∙◌}
use mathlib.Core.List.{List, [], ◌∷◌, ◌++◌}
use native.Mathlib.Omega.{arith}
use general_purpose_library.Prelude.Lists.{length, take, drop}

pub take_append_drop : (n : ℕ) (xs : List ℕ) → take n xs ++ drop n xs ≡ xs
take_append_drop zero xs = refl
take_append_drop (suc n) [] = refl
take_append_drop (suc n) (x ∷ xs) = ap (λ (t : List ℕ). x ∷ t) (take_append_drop n xs)

pub length-drop : (n : ℕ) (xs : List ℕ) → length (drop n xs) ≡ length xs - n
length-drop zero xs = omega arith
length-drop (suc n) [] = omega arith
length-drop (suc n) (x ∷ xs) = length-drop n xs ∙ omega arith

pub drop_all : (n : ℕ) (xs : List ℕ) → length xs < n → drop n xs ≡ []
drop_all zero xs h = absurd (omega arith)
drop_all (suc n) [] h = refl
drop_all (suc n) (x ∷ xs) h = drop_all n xs (omega arith)

pub take_prefix : (t r : List ℕ) → take (length t) (t ++ r) ≡ t
take_prefix [] r = refl
take_prefix (x ∷ t) r = ap (λ (u : List ℕ). x ∷ u) (take_prefix t r)

pub drop_prefix : (t r : List ℕ) (n : ℕ) → drop (length t + n) (t ++ r) ≡ drop n r
drop_prefix [] r n = ap (λ (k : ℕ). drop k r) (omega arith)
drop_prefix (x ∷ t) r n =
    let e : suc (length t) + n ≡ suc (length t + n) = omega arith in
    ap (λ (k : ℕ). drop k (x ∷ (t ++ r))) e ∙ drop_prefix t r n

pub drop-nil : (n : ℕ) → drop {A = ℕ} n [] ≡ []
drop-nil zero = refl
drop-nil (suc n) = refl

pub drop-drop : (m n : ℕ) (xs : List ℕ) → drop m (drop n xs) ≡ drop (n + m) xs
drop-drop m zero xs = ap (λ (k : ℕ). drop k xs) (omega arith)
drop-drop m (suc n) [] = drop-nil m ∙ sym (drop-nil (suc n + m))
drop-drop m (suc n) (x ∷ xs) =
    let e : suc (n + m) ≡ suc n + m = omega arith in
    drop-drop m n xs ∙ ap (λ (k : ℕ). drop k (x ∷ xs)) e

pub length-take_at_most : (n : ℕ) (xs : List ℕ) → length (take n xs) ≤ n
length-take_at_most zero xs = omega arith
length-take_at_most (suc n) [] = omega arith
length-take_at_most (suc n) (x ∷ xs) = let h = length-take_at_most n xs in omega arith
