-- ===== src/Gpio/Files.antt =====
-- How many files are open before and after the routines of linux/gpio/gpio_base.c and
-- linux/gpio/gpio_ctrl.c.
use general_purpose_library.Prelude.{
  ℕ, suc, ◌-◌, ◌≡◌, refl, arith, List, Option, none, some, if◌then◌else◌, ℤ, pos, ltb_ℤ, ◌∙◌,
}
use general_purpose_library.Decimal.{decimal}
use general_purpose_library.Gpio.{
  Direction, input, output, dir_butt, Edge, no_edge, rising, falling, both, edge_butt, GpioFile,
  export_file, Sysfs, write_text, read_text, direction_read, gpio_base_export,
  gpio_base_get_direction, gpio_base_set_direction, gpio_base_get_edge, gpio_base_set_edge,
  gpio_base_set_value, edge_read, value_read, gpio_base_get_value,
}
use general_purpose_library.Gpio.Ctrl.{
  ensure_exported, clear_edge, make_output, make_input, gpio_ctrl_set_value, gpio_ctrl_get_value,
  gpio_ctrl_set_edge,
}

module _ {ℓ} {W : Type ℓ} (sys : Sysfs W) where
  pub record CountsFiles : Type ℓ where
    pub files : W → ℕ
    pub open_read :
        (file : GpioFile) (w : W)
        → files (sys.open_read file w).1
          ≡ (if ltb_ℤ (sys.open_read file w).0 (pos 0) then files w else suc (files w))
    pub open_write :
        (file : GpioFile) (w : W)
        → files (sys.open_write file w).1
          ≡ (if ltb_ℤ (sys.open_write file w).0 (pos 0) then files w else suc (files w))
    pub read_file : (fd : ℤ) (len : ℕ) (w : W) → files (sys.read_file fd len w).2 ≡ files w
    pub write_file : (fd : ℤ) (text : List ℕ) (w : W) → files (sys.write_file fd text w) ≡ files w
    pub close_file : (fd : ℤ) (w : W) → files (sys.close_file fd w) ≡ files w - 1

module _ {ℓ} {W : Type ℓ} (sys : Sysfs W) (counts : CountsFiles sys) where
  abbrev Keeps : W → W → Type 0
  Keeps w w1 = counts.files w1 ≡ counts.files w

  write_text_files :
      (file : GpioFile) (text : List ℕ) (w : W) → Keeps w (write_text sys file text w).1
  unfolding write_text
  write_text_files file text w =
      let (fd, w1) = sys.open_write file w in
      let opened = counts.open_write file w in
      let written = counts.write_file fd text w1 in
      let closed = counts.close_file fd (sys.write_file fd text w1) in ground arith

  read_text_files : (file : GpioFile) (w : W) → Keeps w (read_text sys file w).1
  unfolding read_text
  read_text_files file w =
      let (fd, w1) = sys.open_read file w in
      let opened = counts.open_read file w in
      let taken = counts.read_file fd 64 w1 in
      let closed = counts.close_file fd (sys.read_file fd 64 w1).2 in ground arith

  direction_files :
      (pin : ℤ) (d : Direction) (w : W) → Keeps w (gpio_base_set_direction sys pin d w).1
  unfolding gpio_base_set_direction
  direction_files pin input w = write_text_files _ _ w
  direction_files pin output w = write_text_files _ _ w
  direction_files pin dir_butt w = refl

  edge_files : (pin : ℤ) (e : Edge) (w : W) → Keeps w (gpio_base_set_edge sys pin e w).1
  unfolding gpio_base_set_edge
  edge_files pin no_edge w = write_text_files _ _ w
  edge_files pin rising w = write_text_files _ _ w
  edge_files pin falling w = write_text_files _ _ w
  edge_files pin both w = write_text_files _ _ w
  edge_files pin edge_butt w = refl

  get_direction_files : (pin : ℤ) (w : W) → Keeps w (gpio_base_get_direction sys pin w).1
  unfolding gpio_base_get_direction
  get_direction_files pin w = inside (read_text sys _ w) (read_text_files _ w)
    where
      inside : (r : Option (ℤ × List ℕ) × W) → Keeps w r.1 → Keeps w (direction_read sys r).1
      inside (none, w1) h = h
      inside (some (len, bytes), w1) h = h

  get_edge_files : (pin : ℤ) (w : W) → Keeps w (gpio_base_get_edge sys pin w).1
  unfolding gpio_base_get_edge
  get_edge_files pin w = inside (read_text sys _ w) (read_text_files _ w)
    where
      inside : (r : Option (ℤ × List ℕ) × W) → Keeps w r.1 → Keeps w (edge_read sys r).1
      inside (none, w1) h = h
      inside (some (len, bytes), w1) h = h

  get_value_files : (pin : ℤ) (w : W) → Keeps w (gpio_base_get_value sys pin w).1
  unfolding gpio_base_get_value
  get_value_files pin w = inside (read_text sys _ w) (read_text_files _ w)
    where
      inside : (r : Option (ℤ × List ℕ) × W) → Keeps w r.1 → Keeps w (value_read sys r).1
      inside (none, w1) h = h
      inside (some (len, bytes), w1) h = h

  exported_files : (pin : ℤ) (w : W) → Keeps w (ensure_exported sys pin w)
  unfolding ensure_exported gpio_base_export
  exported_files pin w = let h = write_text_files export_file (decimal pin) w in ground arith

  clear_edge_files : (pin : ℤ) (r : Option Edge × W) → Keeps r.1 (clear_edge sys pin r)
  clear_edge_files pin (some no_edge, w) = refl
  clear_edge_files pin (some rising, w) = edge_files pin no_edge w
  clear_edge_files pin (some falling, w) = edge_files pin no_edge w
  clear_edge_files pin (some both, w) = edge_files pin no_edge w
  clear_edge_files pin (some edge_butt, w) = edge_files pin no_edge w
  clear_edge_files pin (none, w) = edge_files pin no_edge w

  output_files : (pin : ℤ) (r : Direction × W) → Keeps r.1 (make_output sys pin r)
  output_files pin (output, w) = refl
  output_files pin (dir_butt, w) = refl
  output_files pin (input, w) =
      direction_files pin output _
      ∙ clear_edge_files pin (gpio_base_get_edge sys pin w)
      ∙ get_edge_files pin w

  input_files : (pin : ℤ) (r : Direction × W) → Keeps r.1 (make_input sys pin r)
  input_files pin (output, w) = direction_files pin input w
  input_files pin (input, w) = refl
  input_files pin (dir_butt, w) = refl

  -- gpio_ctrl_set_value, gpio_ctrl_get_value and gpio_ctrl_set_edge each leave as many files open
  -- as there were before, whichever of their system calls fail, where an open that succeeds adds
  -- one, close takes one away and the other calls add none.
  pub gpio_ctrl_files :
      (pin value : ℤ) (edge : Edge) (w : W)
      → Keeps w (gpio_ctrl_set_value sys pin value w).1
        × Keeps w (gpio_ctrl_get_value sys pin w).1
        × Keeps w (gpio_ctrl_set_edge sys pin edge w).1
  unfolding gpio_ctrl_set_value gpio_ctrl_get_value gpio_ctrl_set_edge gpio_base_set_value
  gpio_ctrl_files pin value edge w =
      let w1 = ensure_exported sys pin w in
      let ready = get_direction_files pin w1 ∙ exported_files pin w in
      (
        write_text_files _ _ _ ∙ output_files pin (gpio_base_get_direction sys pin w1) ∙ ready,
        get_value_files pin w1 ∙ exported_files pin w,
        edge_files pin edge _ ∙ input_files pin (gpio_base_get_direction sys pin w1) ∙ ready,
      )
