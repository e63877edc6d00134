-- ===== src/Sniffer/Commands.antt =====
-- The command of socket/sniffer.c where `char` is unsigned.
use mathlib.Core.List.{append_assoc}
use general_purpose_library.Prelude.{
  ℕ, zero, suc, ◌+◌, ◌*◌, ◌/◌, ◌<◌, ◌≤◌, ◌≡◌, refl, sym, ap, ◌∙◌, arith, true, false, some, List,
  [], ◌∷◌, ◌++◌, if◌then◌else◌, ltb, length, take, drop, All, ℤ, pos, ltb_ℤ, lt→ltb,
}
use general_purpose_library.Prelude.Slices.{length-take_at_most}
use general_purpose_library.Hex.{
  IsByte, format_02x_byte, hex_pairs, length-hex_pairs, hex_pairs-append,
}
use general_purpose_library.Sniffer.{
  keep_alive, add_text, format_word, add_words, at_most_116, build_keep_alive_command,
}

-- The word at `i`
format_word_lem :
    (buf : List ℕ) (i : ℕ)
    → All IsByte buf
    → i + 4 ≤ length buf
    → format_word false buf i ≡ some (hex_pairs (take 4 (drop i buf)))
format_word_lem [] i bytes h = absurd (omega arith)
format_word_lem (x ∷ xs) (suc i) bytes h =
    let e1 : suc i + 1 ≡ suc (i + 1) = omega arith in
    let e2 : suc i + 2 ≡ suc (i + 2) = omega arith in
    let e3 : suc i + 3 ≡ suc (i + 3) = omega arith in
    rw (e1, e2, e3) (format_word_lem xs i bytes.1 (omega arith))
format_word_lem (a ∷ []) zero bytes h = absurd (omega arith)
format_word_lem (a ∷ b ∷ []) zero bytes h = absurd (omega arith)
format_word_lem (a ∷ b ∷ c ∷ []) zero bytes h = absurd (omega arith)
format_word_lem (a ∷ b ∷ c ∷ d ∷ rest) zero (ha, (hb, (hc, (hd, hr)))) h =
    rw (format_02x_byte a ha, format_02x_byte b hb, format_02x_byte c hc, format_02x_byte d hd) refl

-- The bytes that the loop has to take, in words of four
abbrev pub words : ℕ → ℕ
words copy_len = (copy_len + 3) / 4

take-nil : (n : ℕ) → take {A = ℕ} n [] ≡ []
take-nil zero = refl
take-nil (suc n) = refl

take_more : (n i : ℕ) (xs : List ℕ) → take (i + n) xs ≡ take i xs ++ take n (drop i xs)
take_more n zero xs = ap (λ (k : ℕ). take k xs) (omega arith)
take_more n (suc i) [] = take-nil (suc i + n) ∙ sym (take-nil n)
take_more n (suc i) (x ∷ xs) =
    let e : suc i + n ≡ suc (i + n) = omega arith in
    ap (λ (k : ℕ). take k (x ∷ xs)) e ∙ ap (λ (t : List ℕ). x ∷ t) (take_more n i xs)

-- What the command is after the bytes before `i`
abbrev so_far : List ℕ → ℕ → List ℕ
so_far buf i = keep_alive ++ hex_pairs (take i buf)

add_words_step :
    (rounds : ℕ) (buf : List ℕ) (i : ℕ) (copy_len : ℤ) (cmd text longer : List ℕ)
    → ltb_ℤ (pos i) copy_len ≡ true
    → format_word false buf i ≡ some text
    → add_text cmd text ≡ some longer
    → add_words (suc rounds) false buf i copy_len cmd
      ≡ add_words rounds false buf (i + 4) copy_len longer
unfolding add_words
add_words_step rounds buf i copy_len cmd text longer more read put =
    rw (add_words, more, read, put) refl

add_words_stop :
    (rounds : ℕ) (buf : List ℕ) (i : ℕ) (copy_len : ℤ) (cmd : List ℕ)
    → ltb_ℤ (pos i) copy_len ≡ false
    → add_words (suc rounds) false buf i copy_len cmd ≡ some cmd
unfolding add_words
add_words_stop rounds buf i copy_len cmd stop = rw (add_words, stop) refl

add_text_lem :
    (cmd text result : List ℕ)
    → cmd ++ text ≡ result
    → length result < 256
    → add_text cmd text ≡ some result
add_text_lem cmd text result e h = rw (e, lt→ltb (length result) 256 h) refl

length-so_far : (buf : List ℕ) (i : ℕ) → length (so_far buf i) ≤ 21 + 2 * i
length-so_far buf i =
    let a = length-hex_pairs (take i buf) in let b = length-take_at_most i buf in omega arith

add_word :
    (buf : List ℕ) (i : ℕ)
    → i ≤ 112
    → add_text (so_far buf i) (hex_pairs (take 4 (drop i buf))) ≡ some (so_far buf (i + 4))
add_word buf i small =
    add_text_lem (so_far buf i) (hex_pairs (take 4 (drop i buf))) (so_far buf (i + 4))
      (append_assoc keep_alive (hex_pairs (take i buf)) (hex_pairs (take 4 (drop i buf)))
        ∙ ap (λ (t : List ℕ). keep_alive ++ t)
            (sym (hex_pairs-append (take i buf) (take 4 (drop i buf)))
              ∙ ap hex_pairs (sym (take_more 4 i buf))))
      (below (length (so_far buf (i + 4))) (length-so_far buf (i + 4)))
  where
    below : (n : ℕ) → n ≤ 21 + 2 * (i + 4) → n < 256
    below n h = omega arith

add_words_lem :
    (left rounds k : ℕ) (buf : List ℕ) (i copy_len : ℕ)
    → All IsByte buf
    → i ≡ 4 * k
    → copy_len ≤ 116
    → left < rounds
    → copy_len ≤ i + 4 * left
    → i + 4 * left < copy_len + 4
    → i + 4 * left ≤ length buf
    → add_words rounds false buf i (pos copy_len) (so_far buf i) ≡ some (so_far buf (i + 4 * left))
add_words_lem left zero k buf i copy_len bytes aligned most r low high h = absurd (omega arith)
add_words_lem zero (suc rounds) k buf i copy_len bytes aligned most r low high h =
    add_words_stop rounds buf i (pos copy_len) (so_far buf i) (ground arith)
    ∙ ap (λ (k : ℕ). some (so_far buf k)) (omega arith)
add_words_lem (suc left) (suc rounds) k buf i copy_len bytes aligned most r low high h =
    add_words_step rounds buf i (pos copy_len) (so_far buf i) _ _ (ground arith)
      (format_word_lem buf i bytes (omega arith)) (add_word buf i (omega arith))
    ∙ add_words_lem left rounds (suc k) buf (i + 4) copy_len bytes (omega arith) most (omega arith)
        (omega arith) (omega arith) (omega arith)
    ∙ ap (λ (k : ℕ). some (so_far buf k)) (omega arith)

whole_command :
    (n : ℕ) (buf : List ℕ)
    → All IsByte buf
    → n ≤ 116
    → 4 * words n ≤ length buf
    → add_words 30 false buf 0 (pos n) keep_alive
      ≡ some (keep_alive ++ hex_pairs (take (4 * words n) buf))
whole_command n buf bytes most h =
    add_words_lem (words n) 30 0 buf 0 n bytes (omega arith) most (omega arith) (omega arith)
      (omega arith) (omega arith)
    ∙ ap (λ (k : ℕ). some (so_far buf k)) (omega arith)

at_most_116_lem : (len : ℕ) → at_most_116 (pos len) ≡ pos (if ltb len 116 then len else 116)
at_most_116_lem len = ground arith

at_most : (len : ℕ) → (if ltb len 116 then len else 116) ≤ 116
at_most len = ground arith

-- Where char is unsigned and the buffer holds the bytes of copy_len rounded up to a word,
-- build_keep_alive_command into an empty cmd of 256 bytes stays inside it and leaves the prefix
-- followed by two hex digits for each of those bytes.
pub build_keep_alive_command_lem :
    (buf : List ℕ) (len : ℕ)
    → All IsByte buf
    → let n = if ltb len 116 then len else 116 in
      4 * words n ≤ length buf
      → build_keep_alive_command false buf (pos len) []
        ≡ some (keep_alive ++ hex_pairs (take (4 * words n) buf))
unfolding build_keep_alive_command
build_keep_alive_command_lem buf len bytes h =
    let n = if ltb len 116 then len else 116 in
    ap (λ (z : ℤ). add_words 30 false buf 0 z keep_alive) (at_most_116_lem len)
    ∙ whole_command n buf bytes (at_most len) h
