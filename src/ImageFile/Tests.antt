-- ===== src/ImageFile/Tests.antt =====
-- A frame of two rows, on a stream that never ends.
use mathlib.Core.Path.{subst}
use general_purpose_library.Prelude.{
  ℕ, ◌+◌, ◌≡◌, refl, ap, ◌∙◌, arith, some, List, [], ◌∷◌, ◌++◌, pos, length, take, drop, to_u64,
  ◌≤◌,
}
use general_purpose_library.Prelude.Slices.{take_prefix, drop_prefix}
use general_purpose_library.ImageFile.{
  Stream, image_file_read_one_frame, image_file_write_one_frame, image_file_rw_one_frame, rw_rows,
}
use general_purpose_library.ImageFile.Frames.{
  IsStream, Sent, Restores, image_file_read_one_frame-write_one_frame,
}

record Tape : Type 0 where
  written : List ℕ
  unread : List ℕ

abbrev tape : Stream Tape
tape = record {
  fread = λ size w. (1, take size w.unread, record w { unread = drop size w.unread });
  fwrite = λ bytes w. (1, record w { written = w.written ++ bytes });
}

took : (size : ℕ) (bytes rest : List ℕ) → length bytes ≡ size → take size (bytes ++ rest) ≡ bytes
took size bytes rest h =
    subst (λ (k : ℕ). take k (bytes ++ rest) ≡ bytes) h (take_prefix bytes rest)

dropped : (size : ℕ) (bytes rest : List ℕ) → length bytes ≡ size → drop size (bytes ++ rest) ≡ rest
dropped size bytes rest h =
    let e : length bytes + 0 ≡ size = omega (arith, h) in
    subst (λ (k : ℕ). drop k (bytes ++ rest) ≡ rest) e (drop_prefix bytes rest 0)

abbrev tape_laws : IsStream tape
tape_laws = record {
  written = λ w. w.written;
  unread = λ w. w.unread;
  writes = λ bytes w. (refl, refl);
  reads = λ bytes rest size w left len. (
    refl,
    ap (λ (t : List ℕ). take size t) left ∙ took size bytes rest len,
    ap (λ (t : List ℕ). drop size t) left ∙ dropped size bytes rest len,
  );
}

two_in_three : 2 ≤ 3
two_in_three = omega arith

abbrev picture : List ℕ
picture = 1 ∷ 2 ∷ 99 ∷ 3 ∷ 4 ∷ 99 ∷ []

abbrev blank : List ℕ
blank = 0 ∷ 0 ∷ 0 ∷ 0 ∷ 0 ∷ 0 ∷ 0 ∷ []

abbrev empty : Tape
empty = record { written = []; unread = [] }

abbrev full : Tape
full = record { written = []; unread = 1 ∷ 2 ∷ 3 ∷ 4 ∷ 5 ∷ [] }

image_file_read_one_frame-write_one_frame_example :
    Sent tape tape_laws 2 3 two_in_three picture
      (1 ∷ 2 ∷ 3 ∷ 4 ∷ [])
      (image_file_write_one_frame tape picture (pos 2) (pos 2) 3 empty)
    × Restores tape tape_laws 2 3 two_in_three 2 picture
        (image_file_read_one_frame tape blank (pos 2) (pos 2) 3 full)
image_file_read_one_frame-write_one_frame_example =
    image_file_read_one_frame-write_one_frame tape tape_laws 2 3 two_in_three 2 picture blank
      (5 ∷ []) empty full (omega arith) (omega arith) (omega arith) refl

-- The gap of each row keeps what it held.
gaps_are_kept :
    image_file_read_one_frame tape blank (pos 2) (pos 2) 3 full
    ≡ some (pos 0, 1 ∷ 2 ∷ 0 ∷ 3 ∷ 4 ∷ 0 ∷ 0 ∷ [], record full { unread = 5 ∷ [] })
unfolding image_file_read_one_frame image_file_rw_one_frame rw_rows to_u64
gaps_are_kept = refl
