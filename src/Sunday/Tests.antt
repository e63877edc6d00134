-- ===== src/Sunday/Tests.antt =====
-- sunday_match on small texts, and its theorems there.
use general_purpose_library.Prelude.{
  ℕ, ◌≡◌, refl, arith, true, some, List, [], ◌∷◌, pos, negsuc, All, All-get_or,
}
use general_purpose_library.Sunday.{
  char_index, default_loop, pattern_loop, window_loop, search_loop, sunday_match,
}
use general_purpose_library.Sunday.Table.{IsIndex}
use general_purpose_library.Sunday.Search.{Finds, sunday_match-Finds}

-- "xabyab" with its terminator, and "ab"
abbrev text : List ℕ
text = 120 ∷ 97 ∷ 98 ∷ 121 ∷ 97 ∷ 98 ∷ 0 ∷ []

abbrev word : List ℕ
word = 97 ∷ 98 ∷ []

two_searches :
    (sunday_match true text 6 word 2 ≡ some (pos 1))
    × (sunday_match true text 6 (97 ∷ 97 ∷ []) 2 ≡ some (negsuc 0))
unfolding char_index default_loop pattern_loop window_loop search_loop sunday_match
two_searches = (refl, refl)

text_ok : All (IsIndex true) text
unfolding char_index
text_ok = (
  (refl, omega arith),
  (
    (refl, omega arith),
    (
      (refl, omega arith),
      (
        (refl, omega arith),
        ((refl, omega arith), ((refl, omega arith), ((refl, omega arith), tt))),
      ),
    ),
  ),
)

word_ok : All (IsIndex true) word
unfolding char_index
word_ok = ((refl, omega arith), ((refl, omega arith), tt))

sunday_match-Finds_example : Finds text 6 word 2 (sunday_match true text 6 word 2)
sunday_match-Finds_example =
    sunday_match-Finds true text word 6 2 (omega arith) (omega arith) (omega arith)
      (λ k h. All-get_or (IsIndex true) text k 0 text_ok (omega arith))
      (λ k h. All-get_or (IsIndex true) word k 0 word_ok (omega arith))
