-- ===== src/FileUtils/Buffer.antt =====
-- What the buffers of linux/utils/src/file_utils.c hold: a text that is stored in one, and a file that
-- file_read_to_buffer reads into one.
use mathlib.Core.List.{append_assoc}
use general_purpose_library.Prelude.{
  ℕ, suc, ◌+◌, ◌^◌, ◌<◌, ◌≤◌, ◌≡◌, refl, sym, ap, ◌∙◌, arith, true, some, List, [], ◌∷◌, ◌++◌, ltb,
  leb, if◌then◌else◌, ℤ, pos, length, take, drop, length-append, to_u64, to_int, to_int_pos,
}
use general_purpose_library.Prelude.Slices.{
  take_prefix, drop_prefix, drop-drop, length-drop, length-take_at_most,
}
use general_purpose_library.FileUtils.{
  Stdio, store, stored, read_size, file_get_size, file_read_to_buffer,
}

pub store_first :
    (buffer bytes : List ℕ)
    → length bytes ≤ length buffer
    → store buffer 0 bytes ≡ some (bytes ++ drop (length bytes) buffer)
store_first buffer bytes h =
    let e : 0 + length bytes ≡ length bytes = omega arith in
    let fits : leb (length bytes) (length buffer) ≡ true = ground arith in rw (e, fits) refl

size_read :
    (size len : ℕ)
    → len < 2 ^ 31
    → to_u64 (read_size (pos size) (pos len)) ≡ (if ltb size len then 1 else len)
unfolding to_u64
size_read size len small = ground arith

-- A buffer that holds a text and its terminator, and what it held after that
abbrev pub with_text : List ℕ → List ℕ → List ℕ
with_text buf text = text ++ (0 ∷ drop (suc (length text)) buf)

store_after :
    (buf text bytes : List ℕ)
    → length text + length bytes ≤ length (with_text buf text)
    → store (with_text buf text) (length text) bytes
      ≡ some (text ++ (bytes ++ drop (length bytes) (0 ∷ drop (suc (length text)) buf)))
store_after buf text bytes h =
    let fits : leb (length text + length bytes) (length (with_text buf text)) ≡ true =
      ground arith in
    let kept = take_prefix text (0 ∷ drop (suc (length text)) buf) in
    let rest = drop_prefix text (0 ∷ drop (suc (length text)) buf) (length bytes) in
    rw (fits, kept, rest) refl

pub stores_line :
    (buf text line : List ℕ)
    → suc (length text + length line) ≤ length buf
    → store (with_text buf text) (length text) (line ++ (0 ∷ []))
      ≡ some (with_text buf (text ++ line))
stores_line buf text line h =
    let n : length (line ++ (0 ∷ [])) ≡ suc (length line) =
      length-append line (0 ∷ []) ∙ omega arith in
    let m : suc (length text) + length line ≡ suc (length (text ++ line)) =
      omega (arith, length-append text line) in
    let rest = drop-drop (length line) (suc (length text)) buf ∙ ap (λ (k : ℕ). drop k buf) m in
    store_after buf text (line ++ (0 ∷ [])) (room n)
    ∙ ap (λ (r : List ℕ). some (text ++ r))
        (ap (λ (k : ℕ). (line ++ (0 ∷ [])) ++ drop k (0 ∷ drop (suc (length text)) buf)) n
          ∙ append_assoc line (0 ∷ []) _
          ∙ ap (λ (r : List ℕ). line ++ (0 ∷ r)) rest)
    ∙ ap some (sym (append_assoc text line _))
  where
    room :
        length (line ++ (0 ∷ [])) ≡ suc (length line)
        → length text + length (line ++ (0 ∷ [])) ≤ length (with_text buf text)
    room n =
        let a = length-append text (0 ∷ drop (suc (length text)) buf) in
        let b = length-drop (suc (length text)) buf in omega arith

pub stores_end :
    (buf text : List ℕ)
    → suc (length text) ≤ length buf
    → store (with_text buf text) (length text) (0 ∷ []) ≡ some (with_text buf text)
stores_end buf text h = store_after buf text (0 ∷ []) room
  where
    room : length text + 1 ≤ length (with_text buf text)
    room =
        let a = length-append text (0 ∷ drop (suc (length text)) buf) in
        let b = length-drop (suc (length text)) buf in omega arith

pub stores_first :
    (buf line : List ℕ)
    → suc (length line) ≤ length buf
    → store buf 0 (line ++ (0 ∷ [])) ≡ some (with_text buf line)
stores_first buf line h =
    let n : length (line ++ (0 ∷ [])) ≡ suc (length line) =
      length-append line (0 ∷ []) ∙ omega arith in
    store_first buf (line ++ (0 ∷ [])) (omega arith)
    ∙ ap (λ (k : ℕ). some ((line ++ (0 ∷ [])) ++ drop k buf)) n
    ∙ ap some (append_assoc line (0 ∷ []) _)

bounded :
    (size len taken room : ℕ)
    → 0 < len
    → len ≤ room
    → taken ≤ (if ltb size len then 1 else len)
    → taken ≤ room
bounded size len taken room positive h fits = ground arith

module _ {ℓ} {W : Type ℓ} (io : Stdio W) where
  size_lem :
      (fp : ℕ) (w : W) (size : ℕ)
      → io.ftell fp (io.fseek_end fp w) ≡ pos size
      → size < 2 ^ 31
      → (file_get_size io fp w).0 ≡ pos size
  unfolding file_get_size
  size_lem fp w size h small = ap to_int h ∙ to_int_pos size small

  stored_lem :
      (fp : ℕ) (buffer bytes : List ℕ) (r : List ℕ × W)
      → r.0 ≡ bytes
      → length bytes ≤ length buffer
      → stored io fp buffer r ≡ some (pos 0, bytes ++ drop (length bytes) buffer, io.fclose fp r.1)
  stored_lem fp buffer bytes (b, w) same room =
      ap (λ (t : List ℕ). stored io fp buffer (t, w)) same ∙ rw (store_first buffer bytes room) refl

  -- Where the open succeeds and the size and the bytes of the file are given as stdio documents
  -- it, file_read_to_buffer with a positive len that fits the buffer, on a file of fewer than 2^31
  -- bytes, stores the first len bytes of a file of at least len bytes, but only the first byte of
  -- a shorter one.
  pub file_read_to_buffer_lem :
      (name buffer content : List ℕ) (len fp : ℕ) (w w1 : W)
      → io.fopen_rb name w ≡ (some fp, w1)
      → io.ftell fp (io.fseek_end fp w1) ≡ pos (length content)
      → ((n : ℕ) → (io.fread fp n (file_get_size io fp w1).1).0 ≡ take n content)
      → length content < 2 ^ 31
      → 0 < len
      → len < 2 ^ 31
      → len ≤ length buffer
      → let n = if ltb (length content) len then 1 else len in
        let bytes = take n content in
        file_read_to_buffer io name buffer (pos len) w
        ≡ some (
          pos 0,
          bytes ++ drop (length bytes) buffer,
          io.fclose fp (io.fread fp n (file_get_size io fp w1).1).1,
        )
  unfolding file_read_to_buffer
  file_read_to_buffer_lem name buffer content len fp w w1 opened size reads short positive small
        room =
      let n = if ltb (length content) len then 1 else len in
      let fits = length-take_at_most n content in
      let asked =
        ap (λ (z : ℤ). to_u64 (read_size z (pos len))) (size_lem fp w1 (length content) size short)
        ∙ size_read (length content) len small in
      rw opened (
        ap (λ (k : ℕ). stored io fp buffer (io.fread fp k (file_get_size io fp w1).1)) asked
        ∙ stored_lem fp buffer (take n content) (io.fread fp n (file_get_size io fp w1).1) (reads n)
            (bounded (length content) len (length (take n content)) (length buffer) positive room
              fits))
