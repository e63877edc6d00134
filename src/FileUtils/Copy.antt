-- ===== src/FileUtils/Copy.antt =====
-- file_copy_content of linux/utils/src/file_utils.c between two files, where stdio does what its
-- documentation says and no read or write fails.
use mathlib.Core.Path.{subst}
use mathlib.Core.List.{append-nil, append_assoc}
use general_purpose_library.Prelude.{
  ◌>>=◌, ℕ, zero, suc, ◌+◌, ◌-◌, ◌*◌, ◌<◌, ◌≡◌, refl, sym, ap, ◌∙◌, arith, Bool, true, false,
  Option, none, some, List, [], ◌++◌, ltb, ℤ, pos, length, take, drop, Bool-cases, inl, inr, ltb→lt,
}
use general_purpose_library.Prelude.Slices.{take_append_drop, length-drop, drop_all}
use general_purpose_library.FileUtils.{
  Stdio, copy_block, copy_blocks, copy_opened, file_copy_content,
}

-- What the two files hold, what the reading stream still has before it and whether a read went past
-- its end, and what was written to the other one
pub record Transfer : Type 0 where
  pub source : List ℕ
  pub target : List ℕ
  pub unread : List ℕ
  pub past_end : Bool
  pub written : List ℕ

pub data Role : Type 0 where
  reader writer : Role

module _ {ℓ} {W : Type ℓ} (io : Stdio W) (src_file dst_file : List ℕ) where
  pub record IsTransfer : Type ℓ where
    pub state : W → Transfer
    pub role : W → ℕ → Option Role
    pub opens_rb :
        (w : W) (fp : ℕ) (w1 : W)
        → io.fopen_rb src_file w ≡ (some fp, w1)
        → (role w1 fp ≡ some reader)
          × (state w1 ≡ record (state w) { unread = (state w).source; past_end = false })
    pub opens_wb :
        (w : W) (fp : ℕ) (w1 : W)
        → io.fopen_wb dst_file w ≡ (some fp, w1)
        → (role w1 fp ≡ some writer)
          × (state w1 ≡ record (state w) { target = []; written = [] })
          × ((other : ℕ) → role w other ≡ some reader → role w1 other ≡ some reader)
    pub feofs : (fp : ℕ) (w : W) → role w fp ≡ some reader → io.feof fp w ≡ (state w).past_end
    pub freads :
        (fp len : ℕ) (w : W)
        → role w fp ≡ some reader
        → let (bytes, w1) = io.fread fp len w in
          (bytes ≡ take len (state w).unread)
          × (state w1 ≡ record (state w) {
            unread = drop len (state w).unread;
            past_end = ltb (length (state w).unread) len;
          })
          × (role w1 ≡ role w)
    pub fwrites :
        (fp : ℕ) (bytes : List ℕ) (w : W)
        → role w fp ≡ some writer
        → (state (io.fwrite fp bytes w) ≡ record (state w) { written = (state w).written ++ bytes })
          × (role (io.fwrite fp bytes w) ≡ role w)
    pub flushes :
        (fp : ℕ) (w : W) → (state (io.fflush fp w) ≡ state w) × (role (io.fflush fp w) ≡ role w)
    pub closes_wb :
        (fp : ℕ) (w : W)
        → role w fp ≡ some writer
        → (state (io.fclose fp w) ≡ record (state w) { target = (state w).written })
          × ((other : ℕ) → role w other ≡ some reader → role (io.fclose fp w) other ≡ some reader)
    pub closes_rb : (fp : ℕ) (w : W) → role w fp ≡ some reader → state (io.fclose fp w) ≡ state w

fewer_rounds :
    (n left rounds : ℕ)
    → ltb n 1024 ≡ false
    → left ≡ n - 1024
    → n + 1024 < 1024 * suc rounds
    → left + 1024 < 1024 * rounds
fewer_rounds n left rounds long e h = ground arith

-- One round, and all rounds that are left
abbrev block : Transfer → Transfer
block s = record s {
  unread = drop 1024 s.unread;
  past_end = ltb (length s.unread) 1024;
  written = s.written ++ take 1024 s.unread;
}

abbrev finished : Transfer → Transfer
finished s = record s { unread = []; past_end = true; written = s.written ++ s.unread }

finished-block : (s : Transfer) → finished (block s) ≡ finished s
finished-block s =
    ap (λ (t : List ℕ). record s { unread = []; past_end = true; written = t })
      (append_assoc s.written (take 1024 s.unread) (drop 1024 s.unread)
        ∙ ap (λ (t : List ℕ). s.written ++ t) (take_append_drop 1024 s.unread))

finished_ended : (s : Transfer) → s.past_end ≡ true → s.unread ≡ [] → s ≡ finished s
finished_ended s ended none_left =
    ap (λ (e : Bool). record s { past_end = e }) ended
    ∙ ap (λ (t : List ℕ). record s { past_end = true; written = t })
        (sym (append-nil s.written) ∙ ap (λ (t : List ℕ). s.written ++ t) (sym none_left))
    ∙ ap (λ (t : List ℕ). record s { unread = t; past_end = true; written = s.written ++ s.unread })
        none_left

module _ {ℓ} {W : Type ℓ} (io : Stdio W) (src_file dst_file : List ℕ)
    (laws : IsTransfer io src_file dst_file) where
  abbrev HasRoles : ℕ → ℕ → W → Type 0
  HasRoles src dst w = (laws.role w src ≡ some reader) × (laws.role w dst ≡ some writer)

  copy_block_lem :
      (src dst : ℕ) (w : W)
      → HasRoles src dst w
      → (laws.state (copy_block io src dst w) ≡ block (laws.state w))
        × HasRoles src dst (copy_block io src dst w)
  copy_block_lem src dst w (reads, writes) =
      let (bytes, state1, role1) = laws.freads src 1024 w reads in
      let w1 = (io.fread src 1024 w).1 in
      let (state2, role2) =
        laws.fwrites dst (io.fread src 1024 w).0 w1
          (ap (λ (r : ℕ → Option Role). r dst) role1 ∙ writes) in
      let same = role2 ∙ role1 in
      (
        state2
            ∙ ap (λ (s : Transfer). record s { written = s.written ++ (io.fread src 1024 w).0 })
                state1
            ∙ ap
                (λ (b : List ℕ). record (block (laws.state w)) {
                  written = (laws.state w).written ++ b;
                })
                bytes,
        (
          ap (λ (r : ℕ → Option Role). r src) same ∙ reads,
          ap (λ (r : ℕ → Option Role). r dst) same ∙ writes,
        ),
      )

  -- What the loop leaves, where it ends
  abbrev HasFinished : ℕ → ℕ → Transfer → Option W → Type 0
  HasFinished src dst s none = ⊥
  HasFinished src dst s (some w) = (laws.state w ≡ s) × HasRoles src dst w

  copy_blocks_ended :
      (rounds src dst : ℕ) (w : W)
      → HasRoles src dst w
      → 0 < rounds
      → (laws.state w).past_end ≡ true
      → copy_blocks io rounds src dst w ≡ some w
  unfolding copy_blocks
  copy_blocks_ended zero src dst w roles h ended = absurd (omega arith)
  copy_blocks_ended (suc rounds) src dst w roles h ended =
      rw (copy_blocks, laws.feofs src w roles.0 ∙ ended) refl

  copy_blocks_step :
      (rounds src dst : ℕ) (w : W)
      → HasRoles src dst w
      → (laws.state w).past_end ≡ false
      → copy_blocks io (suc rounds) src dst w
        ≡ copy_blocks io rounds src dst (copy_block io src dst w)
  unfolding copy_blocks
  copy_blocks_step rounds src dst w roles goes_on =
      rw (copy_blocks, laws.feofs src w roles.0 ∙ goes_on) refl

  copy_blocks_lem :
      (rounds src dst : ℕ) (w : W)
      → HasRoles src dst w
      → (laws.state w).past_end ≡ false
      → length (laws.state w).unread + 1024 < 1024 * rounds
      → HasFinished src dst (finished (laws.state w)) (copy_blocks io rounds src dst w)
  copy_blocks_lem zero src dst w roles goes_on h = absurd (omega arith)
  copy_blocks_lem (suc rounds) src dst w roles goes_on h =
      let (state1, roles1) = copy_block_lem src dst w roles in
      let w1 = copy_block io src dst w in
      let all = (laws.state w).unread in
      subst (HasFinished src dst (finished (laws.state w)))
        (sym (copy_blocks_step rounds src dst w roles goes_on))
        (elim (Bool-cases (ltb (length all) 1024)) [
          | inl short ↦
              subst (HasFinished src dst (finished (laws.state w)))
                (sym (
                  copy_blocks_ended rounds src dst w1 roles1 (omega arith)
                    (ap (λ (s : Transfer). s.past_end) state1 ∙ short)))
                (
                  state1
                      ∙ finished_ended (block (laws.state w)) short
                          (drop_all 1024 all (ltb→lt (length all) 1024 short))
                      ∙ finished-block (laws.state w),
                  roles1,
                )
          | inr long ↦
              subst (λ (s : Transfer). HasFinished src dst s (copy_blocks io rounds src dst w1))
                (ap finished state1 ∙ finished-block (laws.state w))
                (copy_blocks_lem rounds src dst w1 roles1
                  (ap (λ (s : Transfer). s.past_end) state1 ∙ long)
                  (fewer_rounds (length all) _ rounds long
                    (ap (λ (s : Transfer). length s.unread) state1 ∙ length-drop 1024 all) h))
        ])

  -- What a successful copy leaves
  abbrev pub HasCopied : List ℕ → Option (ℤ × W) → Type 0
  HasCopied content none = ⊥
  HasCopied content (some (ret, w)) = (ret ≡ pos 0) × ((laws.state w).target ≡ content)

  copied :
      (rounds src dst : ℕ) (w : W)
      → HasRoles src dst w
      → (laws.state w).past_end ≡ false
      → (laws.state w).written ≡ []
      → length (laws.state w).unread + 1024 < 1024 * rounds
      → HasCopied (laws.state w).unread (copy_opened io rounds src (some dst, w))
  copied rounds src dst w roles goes_on fresh h =
      inside (copy_blocks io rounds src dst w) (copy_blocks_lem rounds src dst w roles goes_on h)
    where
      inside :
          (r : Option W)
          → HasFinished src dst (finished (laws.state w)) r
          → HasCopied
              (laws.state w).unread
              (r >>= λ w1. some (pos 0, io.fclose src (io.fclose dst (io.fflush dst w1))))
      inside none done = done
      inside (some w1) (state1, (reads, writes)) =
          let (flushed, role1) = laws.flushes dst w1 in
          let w2 = io.fflush dst w1 in
          let (closed, reads2) =
            laws.closes_wb dst w2 (ap (λ (r : ℕ → Option Role). r dst) role1 ∙ writes) in
          let reads3 = reads2 src (ap (λ (r : ℕ → Option Role). r src) role1 ∙ reads) in
          (
            refl,
            ap (λ (s : Transfer). s.target) (laws.closes_rb src (io.fclose dst w2) reads3 ∙ closed)
                ∙ ap (λ (s : Transfer). s.written) (flushed ∙ state1)
                ∙ ap (λ (t : List ℕ). t ++ (laws.state w).unread) fresh,
          )

  -- Where access and both opens succeed and the calls of stdio do what their documentation says
  -- without failing, file_copy_content ends within rounds whose blocks are more than the source
  -- and one further block, answers 0, and the destination then holds what the source held.
  pub file_copy_content_lem :
      (rounds src dst : ℕ) (w w1 w2 : W)
      → io.access src_file w ≡ pos 0
      → io.fopen_rb src_file w ≡ (some src, w1)
      → io.fopen_wb dst_file w1 ≡ (some dst, w2)
      → length (laws.state w).source + 1024 < 1024 * rounds
      → HasCopied (laws.state w).source (file_copy_content io rounds src_file dst_file w)
  unfolding file_copy_content
  file_copy_content_lem rounds src dst w w1 w2 found source target h =
      let (reads, opened) = laws.opens_rb w src w1 source in
      let (writes, emptied, kept) = laws.opens_wb w1 dst w2 target in
      let state2 = emptied ∙ ap (λ (s : Transfer). record s { target = []; written = [] }) opened in
      let unread = ap (λ (s : Transfer). s.unread) state2 in
      rw (found, source, target)
        (subst (λ (t : List ℕ). HasCopied t (copy_opened io rounds src (some dst, w2))) unread
          (copied rounds src dst w2 (kept src reads, writes)
            (ap (λ (s : Transfer). s.past_end) state2) (ap (λ (s : Transfer). s.written) state2)
            (subst (λ (t : List ℕ). length t + 1024 < 1024 * rounds) (sym unread) h)))
