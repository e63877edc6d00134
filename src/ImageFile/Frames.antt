-- ===== src/ImageFile/Frames.antt =====
-- A frame that linux/utils/src/image_file.c writes and reads back.
use mathlib.Core.Path.{subst}
use mathlib.Core.List.{append-nil, append_assoc}
use general_purpose_library.Prelude.{
  ℕ, zero, suc, ◌+◌, ◌*◌, ◌^◌, ◌<◌, ◌≤◌, ◌≡◌, refl, sym, ap, ◌∙◌, arith, true, Option, none, some,
  List, [], ◌++◌, leb, ℤ, pos, length, take, drop, length-take_le, to_u64,
}
use general_purpose_library.Prelude.Slices.{length-drop}
use general_purpose_library.ImageFile.Places.{
  slice_before, placed, store_inside, length-placed, slice_placed,
}
use general_purpose_library.ImageFile.{
  Stream, stored_at, read_item, write_item, kept_buffer, rw_rows, finished, image_file_rw_one_frame,
  image_file_read_one_frame, image_file_write_one_frame,
}

size_of_width : (width : ℕ) → width < 2 ^ 31 → to_u64 (pos width) ≡ width
unfolding to_u64
size_of_width width small = ground arith

row_fits :
    (rows place width stride n : ℕ)
    → width ≤ stride
    → place + suc rows * stride ≤ n
    → place + width ≤ n
row_fits rows place width stride n fits h = omega arith

rows_fit :
    (rows place stride n : ℕ) → place + suc rows * stride ≤ n → place + stride + rows * stride ≤ n
rows_fit rows place stride n h = omega arith

-- The bytes of the rows of a frame, without the gaps between them
abbrev pub frame_bytes : ℕ → ℕ → ℕ → ℕ → List ℕ → List ℕ
frame_bytes width stride zero place buf = []
frame_bytes width stride (suc rows) place buf =
    take width (drop place buf) ++ frame_bytes width stride rows (place + stride) buf

module _ {ℓ} {W : Type ℓ} (io : Stream W) where
  -- A stream that takes every write and gives what is left to read
  pub record IsStream : Type ℓ where
    pub written : W → List ℕ
    pub unread : W → List ℕ
    pub writes :
        (bytes : List ℕ) (w : W)
        → ((io.fwrite bytes w).0 ≡ 1) × (written (io.fwrite bytes w).1 ≡ written w ++ bytes)
    pub reads :
        (bytes rest : List ℕ) (size : ℕ) (w : W)
        → unread w ≡ bytes ++ rest
        → length bytes ≡ size
        → let (ret, got, w1) = io.fread size w in (ret ≡ 1) × (got ≡ bytes) × (unread w1 ≡ rest)

module _ {ℓ} {W : Type ℓ} (rw_ops : ℕ → ℕ → List ℕ → W → Option (ℕ × List ℕ × W))
    (width stride : ℕ) where
  rw_rows_step :
      (rows place : ℕ) (buffer : List ℕ) (w : W) (r : ℕ × List ℕ × W)
      → rw_ops place width buffer w ≡ some r
      → r.0 ≡ 1
      → rw_rows rw_ops width stride (suc rows) place buffer w
        ≡ rw_rows rw_ops width stride rows (place + stride) r.1 r.2
  unfolding rw_rows
  rw_rows_step rows place buffer w r h one = rw (rw_rows, h, one) refl

module _ {ℓ} {W : Type ℓ} (io : Stream W) (laws : IsStream io) (width stride : ℕ)
    (fits : width ≤ stride) where
  -- What writing the rows that are left has to do
  abbrev Wrote : List ℕ → List ℕ → Option (List ℕ × W) → Type 0
  Wrote buffer all none = ⊥
  Wrote buffer all (some (b, w)) = (b ≡ buffer) × (laws.written w ≡ all)

  write_item_lem :
      (place : ℕ) (buffer : List ℕ) (w : W)
      → place + width ≤ length buffer
      → write_item io place width buffer w
        ≡ some (kept_buffer io buffer (io.fwrite (take width (drop place buffer)) w))
  write_item_lem place buffer w h =
      let e : leb (place + width) (length buffer) ≡ true = ground arith in rw e refl

  write_rows :
      (rows place : ℕ) (buffer : List ℕ) (w : W)
      → place + rows * stride ≤ length buffer
      → Wrote buffer
          (laws.written w ++ frame_bytes width stride rows place buffer)
          (rw_rows (write_item io) width stride rows place buffer w)
  write_rows zero place buffer w h = unfold rw_rows in (refl, sym (append-nil (laws.written w)))
  write_rows (suc rows) place buffer w h =
      let bytes = take width (drop place buffer) in
      let (one, put) = laws.writes bytes w in
      let w1 = (io.fwrite bytes w).1 in
      subst (Wrote buffer _)
        (sym (
          rw_rows_step (write_item io) width stride rows place buffer w _
            (write_item_lem place buffer w
              (row_fits rows place width stride (length buffer) fits h))
            one))
        (subst
          (λ (t : List ℕ).
            Wrote buffer t (rw_rows (write_item io) width stride rows (place + stride) buffer w1))
          (ap (λ (t : List ℕ). t ++ frame_bytes width stride rows (place + stride) buffer) put
            ∙ append_assoc (laws.written w) bytes
                (frame_bytes width stride rows (place + stride) buffer))
          (write_rows rows (place + stride) buffer w1
            (rows_fit rows place stride (length buffer) h)))

  -- What reading the rows that are left has to do
  abbrev Restored : ℕ → ℕ → List ℕ → List ℕ → Option (List ℕ × W) → Type 0
  Restored rows place buffer image none = ⊥
  Restored rows place buffer image (some (b, w)) =
      (frame_bytes width stride rows place b ≡ frame_bytes width stride rows place image)
      × ((q : ℕ) → q + width ≤ place → take width (drop q b) ≡ take width (drop q buffer))

  first_row :
      (rows place : ℕ) (buffer image bytes : List ℕ)
      → length bytes ≡ width
      → place + length bytes ≤ length buffer
      → bytes ≡ take width (drop place image)
      → (r : Option (List ℕ × W))
      → Restored rows (place + stride) (placed buffer place bytes) image r
      → Restored (suc rows) place buffer image r
  first_row rows place buffer image bytes len room is none done = done
  first_row rows place buffer image bytes len room is (some (b, w)) (same, kept) =
      let here : take width (drop place (placed buffer place bytes)) ≡ bytes =
        subst (λ (n : ℕ). take n (drop place (placed buffer place bytes)) ≡ bytes) len
          (slice_placed buffer place bytes room) in
      (
        ap (λ (t : List ℕ). t ++ frame_bytes width stride rows (place + stride) b)
              (kept place (omega arith) ∙ here ∙ is)
            ∙ ap (λ (t : List ℕ). take width (drop place image) ++ t) same,
        λ q low. kept q (omega arith) ∙ slice_before width q place buffer _ low (omega arith),
      )

  read_rows :
      (rows place : ℕ) (buffer image rest : List ℕ) (w : W)
      → place + rows * stride ≤ length buffer
      → place + rows * stride ≤ length image
      → laws.unread w ≡ frame_bytes width stride rows place image ++ rest
      → Restored rows place buffer image (rw_rows (read_item io) width stride rows place buffer w)
  read_rows zero place buffer image rest w h k got = unfold rw_rows in (refl, λ q low. refl)
  read_rows (suc rows) place buffer image rest w h k got =
      let bytes = take width (drop place image) in
      let len = length_row place image (row_fits rows place width stride (length image) fits k) in
      let more = frame_bytes width stride rows (place + stride) image ++ rest in
      let (one, same, left) = laws.reads bytes more width w (got ∙ append_assoc bytes _ rest) len in
      let buffer1 = placed buffer place bytes in
      let room : place + length bytes ≤ length buffer =
        subst (λ (n : ℕ). place + n ≤ length buffer) (sym len)
          (row_fits rows place width stride (length buffer) fits h) in
      let item : read_item io place width buffer w
          ≡ some ((io.fread width w).0, buffer1, (io.fread width w).2) =
        ap
          (λ (t : List ℕ).
            stored_at io place buffer ((io.fread width w).0, t, (io.fread width w).2))
          same
        ∙ rw (store_inside buffer place bytes room) refl in
      subst (Restored (suc rows) place buffer image)
        (sym (rw_rows_step (read_item io) width stride rows place buffer w _ item one))
        (first_row rows place buffer image bytes len room refl _ (
          read_rows rows (place + stride) buffer1 image rest (io.fread width w).2
            (subst (λ (n : ℕ). place + stride + rows * stride ≤ n)
              (sym (length-placed buffer place bytes room))
              (rows_fit rows place stride (length buffer) h))
            (rows_fit rows place stride (length image) k) left))
    where
      length_row :
          (p : ℕ) (xs : List ℕ) → p + width ≤ length xs → length (take width (drop p xs)) ≡ width
      length_row p xs room =
          let d = length-drop p xs in length-take_le width (drop p xs) (omega arith)

  -- What writing a frame has to do, and reading it into another buffer
  abbrev pub Sent : List ℕ → List ℕ → Option (ℤ × List ℕ × W) → Type 0
  Sent image all none = ⊥
  Sent image all (some (ret, b, w)) = (ret ≡ pos 0) × (b ≡ image) × (laws.written w ≡ all)

  abbrev pub Restores : ℕ → List ℕ → Option (ℤ × List ℕ × W) → Type 0
  Restores height image none = ⊥
  Restores height image (some (ret, b, w)) =
      (ret ≡ pos 0)
      × (frame_bytes width stride height 0 b ≡ frame_bytes width stride height 0 image)

  sent :
      (image all : List ℕ) (r : Option (List ℕ × W))
      → Wrote image all r
      → Sent image all (finished r)
  sent image all none done = done
  sent image all (some (b, w)) (same, put) = (refl, same, put)

  restores :
      (height : ℕ) (buffer image : List ℕ) (r : Option (List ℕ × W))
      → Restored height 0 buffer image r
      → Restores height image (finished r)
  restores height buffer image none done = done
  restores height buffer image (some (b, w)) (same, kept) = (refl, same)

  -- For a width that is no more than the stride, buffers that hold the rows with their strides,
  -- and a stream that moves every item whole, image_file_write_one_frame writes the bytes of the
  -- rows in order, without the gaps, and image_file_read_one_frame from a stream that begins with
  -- these bytes puts the same rows into another buffer.
  pub image_file_read_one_frame-write_one_frame :
      (height : ℕ) (image buffer rest : List ℕ) (w v : W)
      → width < 2 ^ 31
      → height * stride ≤ length image
      → height * stride ≤ length buffer
      → let frame = frame_bytes width stride height 0 image in
        laws.unread v ≡ frame ++ rest
        → Sent image
            (laws.written w ++ frame)
            (image_file_write_one_frame io image (pos width) (pos height) stride w)
          × Restores height image
              (image_file_read_one_frame io buffer (pos width) (pos height) stride v)
  unfolding image_file_write_one_frame image_file_read_one_frame image_file_rw_one_frame
  image_file_read_one_frame-write_one_frame height image buffer rest w v small in_image in_buffer
        left =
      let size = size_of_width width small in
      rw size (
        sent image _ _ (write_rows height 0 image w (omega arith)),
        restores height buffer image _
            (read_rows height 0 buffer image rest v (omega arith) (omega arith) left),
      )
