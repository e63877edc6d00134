-- ===== src/FileUtils/Running.antt =====
-- file_is_process_running of linux/utils/src/file_utils.c, where the command prints a count.
use mathlib.Core.Path.{subst}
use mathlib.Core.List.{tail-eq_of_cons-eq, append-nil}
use general_purpose_library.Prelude.{
  if◌then◌else◌, lt→ltb, ℕ, suc, ◌+◌, ◌<◌, ◌≤◌, ◌≡◌, refl, ap, ◌∙◌, arith, Bool, true, Option, none,
  some, List, [], ◌∷◌, ◌++◌, ◌==◌, ltb, ℤ, pos, length, replicate, length-append, Bool-cases, inl,
  inr,
}
use general_purpose_library.Decimal.{digits, until_nul, scan_signed, scan_signed-decimal}
use general_purpose_library.FileUtils.{Stdio}
use general_purpose_library.FileUtils.Buffer.{with_text}
use general_purpose_library.FileUtils.Command.{
  GivesLines, fitting, fitting_more, Answers, file_system_cmd_lem,
}
use general_purpose_library.FileUtils.Process.{
  count_lines, process_command, counted, file_is_process_running,
}

-- A text that is stored in a buffer ends where it did.
until_nul-with_text :
    (text rest : List ℕ) → until_nul text ≡ text → until_nul (text ++ (0 ∷ rest)) ≡ text
until_nul-with_text [] rest h = refl
until_nul-with_text (c ∷ cs) rest h = elim (Bool-cases (c == 0)) [
  | inl end ↦
      absurd (no_end (subst (λ (b : Bool). (if b then [] else c ∷ until_nul cs) ≡ c ∷ cs) end h))
  | inr goes ↦ rw goes (
      ap (λ (t : List ℕ). c ∷ t)
        (until_nul-with_text cs rest (
          tail-eq_of_cons-eq
            (subst (λ (b : Bool). (if b then [] else c ∷ until_nul cs) ≡ c ∷ cs) goes h))))
]
  where
    no_end : [] ≡ c ∷ cs → ⊥
    no_end e = let n = ap length e in omega arith

module _ {ℓ} {W : Type ℓ} (io : Stdio W) (fp : ℕ) (laws : GivesLines io fp) where
  -- An answer that is a count
  abbrev pub Counts : ℕ → Option (ℤ × W) → Type 0
  Counts n none = ⊥
  Counts n (some (count, w)) = count ≡ pos n

  counts :
      (n : ℕ) (b : List ℕ) (r : Option (Bool × List ℕ × W))
      → Answers io fp laws b r
      → scan_signed (pos 0) (until_nul b) ≡ pos n
      → Counts n (counted io r)
  counts n b none h e = h
  counts n b (some (ok, buf, w)) (h, same) e =
      ap (λ (t : List ℕ). scan_signed (pos 0) (until_nul t)) same ∙ e

  -- For a name of fewer than 96 characters and a command that prints a number and a line feed,
  -- file_is_process_running answers that number.
  pub file_is_process_running_lem :
      (name : List ℕ) (n : ℕ) (w w1 : W)
      → let line = digits (suc n) n (10 ∷ []) in
        length name < 96
        → length line < 1024
        → io.popen (process_command name) w ≡ (some fp, w1)
        → laws.lines w1 ≡ line ∷ []
        → Counts n (file_is_process_running io 2 name w)
  unfolding file_is_process_running
  file_is_process_running_lem name n w w1 short small opened h =
      let line = digits (suc n) n (10 ∷ []) in
      let buf = replicate 1024 0 in
      let (given, left, plain, within) = laws.gives w1 line [] h in
      let whole = fitting_more 1024 line [] (lt→ltb (length line) 1024 small) ∙ append-nil line in
      rw (fits (length name) _ short (length-append name count_lines)) (
        counts n (with_text buf (fitting 1024 (line ∷ []))) _
          (file_system_cmd_lem io fp laws (process_command name) buf line [] 1 1024 w w1 opened h
            one_line positive room)
          (ap (λ (t : List ℕ). scan_signed (pos 0) (until_nul (with_text buf t))) whole
            ∙ ap (scan_signed (pos 0)) (until_nul-with_text line _ plain)
            ∙ scan_signed-decimal (pos 0) n (10 ∷ []) refl))
    where
      fits :
          (k m : ℕ)
          → k < 96
          → m ≡ k + 22
          → ltb (suc (suc (suc (suc (suc (suc (suc (suc (suc (suc m)))))))))) 128 ≡ true
      fits k m h e = ground arith

      one_line : length {A = List ℕ} [] < 1
      one_line = omega arith

      positive : 0 < 1024
      positive = omega arith

      room : 1024 ≤ length (replicate {A = ℕ} 1024 0)
      room = omega arith
