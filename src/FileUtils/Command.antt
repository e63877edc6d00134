-- ===== src/FileUtils/Command.antt =====
-- file_system_cmd of linux/utils/src/file_utils.c: the lines that its buffer holds.
use mathlib.Core.Path.{subst}
use mathlib.Core.List.{append-nil, append_assoc}
use general_purpose_library.Prelude.{
  ℕ, zero, suc, ◌+◌, ◌-◌, ◌<◌, ◌≤◌, ◌≡◌, refl, sym, ap, ◌∙◌, arith, Bool, true, false, Option, none,
  some, List, [], ◌∷◌, ◌++◌, ltb, ℤ, pos, length, length-append, Bool-cases, inl, inr, ltb→lt,
}
use general_purpose_library.Decimal.{until_nul}
use general_purpose_library.FileUtils.Buffer.{
  store_first, with_text, stores_line, stores_end, stores_first,
}
use general_purpose_library.FileUtils.{
  Stdio, store, is_full, read_lines, closing_command, file_system_cmd,
}

-- The lines that fit in a room, each with one byte to spare
abbrev pub fitting : ℕ → List (List ℕ) → List ℕ
fitting room [] = []
fitting room (line ∷ lines) = elim (ltb (length line) room) [
  | true ↦ line ++ fitting (room - length line) lines
  | false ↦ []
]

pub fitting_more :
    (room : ℕ) (line : List ℕ) (rest : List (List ℕ))
    → ltb (length line) room ≡ true
    → fitting room (line ∷ rest) ≡ line ++ fitting (room - length line) rest
fitting_more room line rest h = rw (fitting, h) refl

fitting_over :
    (room : ℕ) (line : List ℕ) (rest : List (List ℕ))
    → ltb (length line) room ≡ false
    → fitting room (line ∷ rest) ≡ []
fitting_over room line rest h = rw (fitting, h) refl

module _ {ℓ} {W : Type ℓ} (io : Stdio W) (fp : ℕ) where
  -- A stream that gives lines without a terminator inside that fit the 256 bytes of the array with
  -- theirs, and then ends
  pub record GivesLines : Type ℓ where
    pub lines : W → List (List ℕ)
    pub ends : (w : W) → lines w ≡ [] → (io.fgets fp 256 w).0 ≡ none
    pub gives :
        (w : W) (line : List ℕ) (rest : List (List ℕ))
        → lines w ≡ line ∷ rest
        → ((io.fgets fp 256 w).0 ≡ some line)
          × (lines (io.fgets fp 256 w).1 ≡ rest)
          × (until_nul line ≡ line)
          × (length line < 256)

  read_lines_end :
      (rounds offset : ℕ) (buf : List ℕ) (size : ℤ) (w : W)
      → (io.fgets fp 256 w).0 ≡ none
      → read_lines io (suc rounds) fp buf offset size w ≡ some (buf, (io.fgets fp 256 w).1)
  unfolding read_lines
  read_lines_end rounds offset buf size w h = rw (read_lines, h) refl

  read_lines_full :
      (rounds offset : ℕ) (buf line b : List ℕ) (size : ℤ) (w : W)
      → (io.fgets fp 256 w).0 ≡ some line
      → until_nul line ≡ line
      → is_full io offset (length line) size ≡ true
      → store buf offset (0 ∷ []) ≡ some b
      → read_lines io (suc rounds) fp buf offset size w ≡ some (b, (io.fgets fp 256 w).1)
  unfolding read_lines
  read_lines_full rounds offset buf line b size w h text full put =
      rw (read_lines, h, text, full, put) refl

  read_lines_fits :
      (rounds offset : ℕ) (buf line b : List ℕ) (size : ℤ) (w : W)
      → (io.fgets fp 256 w).0 ≡ some line
      → until_nul line ≡ line
      → is_full io offset (length line) size ≡ false
      → store buf offset (line ++ (0 ∷ [])) ≡ some b
      → read_lines io (suc rounds) fp buf offset size w
        ≡ read_lines io rounds fp b (offset + length line) size (io.fgets fp 256 w).1
  unfolding read_lines
  read_lines_fits rounds offset buf line b size w h text fits put =
      let fits1 = ap (λ (t : List ℕ). is_full io offset (length t) size) text ∙ fits in
      let put1 = ap (λ (t : List ℕ). store buf offset (t ++ (0 ∷ []))) text ∙ put in
      rw (read_lines, h, fits1, put1)
        (ap
          (λ (t : List ℕ). read_lines io rounds fp b (offset + length t) size (io.fgets fp 256 w).1)
          text)

module _ {ℓ} {W : Type ℓ} (io : Stdio W) (fp : ℕ) (laws : GivesLines io fp) where
  abbrev pub Leaves : List ℕ → Option (List ℕ × W) → Type 0
  Leaves b none = ⊥
  Leaves b (some (buf, w)) = buf ≡ b

  module _ (buf : List ℕ) (size : ℕ) (small : size ≤ length buf) where
    read_lines_lem :
        (ls : List (List ℕ)) (rounds : ℕ) (text : List ℕ) (w : W)
        → laws.lines w ≡ ls
        → length ls < rounds
        → length text < size
        → Leaves
            (with_text buf (text ++ fitting (size - length text) ls))
            (read_lines io rounds fp (with_text buf text) (length text) (pos size) w)
    read_lines_lem ls zero text w h r room = absurd (omega arith)
    read_lines_lem [] (suc rounds) text w h r room =
        subst (Leaves _)
          (sym (
            read_lines_end io fp rounds (length text) (with_text buf text) (pos size) w
              (laws.ends w h)))
          (ap (with_text buf) (sym (append-nil text)))
    read_lines_lem (line ∷ rest) (suc rounds) text w h r room =
        let (given, left, plain, short) = laws.gives w line rest h in
        let next = λ (n : ℕ).
          read_lines io rounds fp (with_text buf (text ++ line)) n (pos size)
            (io.fgets fp 256 w).1 in
        elim (Bool-cases (ltb (length line) (size - length text))) [
          | inl fits ↦
              subst (Leaves _)
                (sym (
                  read_lines_fits io fp rounds (length text) (with_text buf text) line _ (pos size)
                    w given plain (fits_in (length text) (length line) fits)
                    (stores_line buf text line (below (length text) (length line) fits))))
                (subst (λ (t : List ℕ). Leaves (with_text buf t) (next (length text + length line)))
                  (append_assoc text line (fitting (size - (length text + length line)) rest)
                    ∙ ap (λ (k : ℕ). text ++ (line ++ fitting k rest)) (omega arith)
                    ∙ ap (λ (t : List ℕ). text ++ t)
                        (sym (fitting_more (size - length text) line rest fits)))
                  (subst
                    (λ (n : ℕ).
                      Leaves (with_text buf ((text ++ line) ++ fitting (size - n) rest)) (next n))
                    (length-append text line)
                    (read_lines_lem rest rounds (text ++ line) (io.fgets fp 256 w).1 left
                      (omega arith)
                      (within (length text) (length line) _ fits (length-append text line)))))
          | inr over ↦
              subst (Leaves _)
                (sym (
                  read_lines_full io fp rounds (length text) (with_text buf text) line _ (pos size)
                    w given plain (over_full (length text) (length line) room over)
                    (stores_end buf text (omega arith))))
                (ap (with_text buf) (
                  sym (append-nil text)
                  ∙ ap (λ (t : List ℕ). text ++ t)
                      (sym (fitting_over (size - length text) line rest over))))
        ]
      where
        fits_in : (n k : ℕ) → ltb k (size - n) ≡ true → is_full io n k (pos size) ≡ false
        fits_in n k h = ground arith

        over_full :
            (n k : ℕ) → n < size → ltb k (size - n) ≡ false → is_full io n k (pos size) ≡ true
        over_full n k less h = ground arith

        below : (n k : ℕ) → ltb k (size - n) ≡ true → suc (n + k) ≤ length buf
        below n k h = ground arith

        within : (n k m : ℕ) → ltb k (size - n) ≡ true → m ≡ n + k → m < size
        within n k m h e = ground arith

    first_lines :
        (line : List ℕ) (rest : List (List ℕ)) (rounds : ℕ) (w : W)
        → laws.lines w ≡ line ∷ rest
        → length rest < rounds
        → 0 < size
        → Leaves
            (with_text buf (fitting size (line ∷ rest)))
            (read_lines io (suc rounds) fp buf 0 (pos size) w)
    first_lines line rest rounds w h r positive =
        let (given, left, plain, short) = laws.gives w line rest h in
        let next = λ (n : ℕ).
          read_lines io rounds fp (with_text buf line) n (pos size) (io.fgets fp 256 w).1 in
        elim (Bool-cases (ltb (length line) size)) [
          | inl fits ↦
              subst (Leaves _)
                (sym (
                  read_lines_fits io fp rounds 0 buf line _ (pos size) w given plain
                    (fits_first (length line) fits)
                    (stores_first buf line (below_first (length line) fits))))
                (subst (λ (t : List ℕ). Leaves (with_text buf t) (next (0 + length line)))
                  (sym (fitting_more size line rest fits))
                  (subst
                    (λ (n : ℕ).
                      Leaves (with_text buf (line ++ fitting (size - length line) rest)) (next n))
                    (omega arith)
                    (read_lines_lem rest rounds line (io.fgets fp 256 w).1 left r
                      (ltb→lt (length line) size fits))))
          | inr over ↦
              subst (Leaves _)
                (sym (
                  read_lines_full io fp rounds 0 buf line _ (pos size) w given plain
                    (over_first (length line) over) (store_first buf (0 ∷ []) (omega arith))))
                (ap (with_text buf) (sym (fitting_over size line rest over)))
        ]
      where
        fits_first : (k : ℕ) → ltb k size ≡ true → is_full io 0 k (pos size) ≡ false
        fits_first k h = ground arith

        over_first : (k : ℕ) → ltb k size ≡ false → is_full io 0 k (pos size) ≡ true
        over_first k h = ground arith

        below_first : (k : ℕ) → ltb k size ≡ true → suc k ≤ length buf
        below_first k h = ground arith

  -- The answer of file_system_cmd where it is the buffer, which holds `b`
  abbrev pub Answers : List ℕ → Option (Bool × List ℕ × W) → Type 0
  Answers b none = ⊥
  Answers b (some (ok, buf, w)) = (ok ≡ true) × (buf ≡ b)

  closes : (b : List ℕ) (r : Option (List ℕ × W)) → Leaves b r → Answers b (closing_command io fp r)
  closes b none h = h
  closes b (some (buf, w)) h = (refl, h)

  -- For a command that prints at least one line, each line without a NUL and of fewer than 256
  -- bytes, and a size that is positive and no more than the buffer, file_system_cmd ends, answers
  -- the buffer and writes nothing outside it: it holds the first lines that fit whole with the
  -- terminator in size bytes, the terminator, and what it held before after that.
  pub file_system_cmd_lem :
      (cmd buf line : List ℕ) (rest : List (List ℕ)) (rounds size : ℕ) (w w1 : W)
      → io.popen cmd w ≡ (some fp, w1)
      → laws.lines w1 ≡ line ∷ rest
      → length rest < rounds
      → 0 < size
      → size ≤ length buf
      → Answers
          (with_text buf (fitting size (line ∷ rest)))
          (file_system_cmd io (suc rounds) cmd buf (pos size) w)
  unfolding file_system_cmd
  file_system_cmd_lem cmd buf line rest rounds size w w1 opened h r positive small =
      rw opened (closes _ _ (first_lines buf size small line rest rounds w1 h r positive))
