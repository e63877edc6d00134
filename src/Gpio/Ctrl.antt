-- ===== src/Gpio/Ctrl.antt =====
-- linux/gpio/gpio_ctrl.c: a pin is exported, and its direction and edge are set, before it is used.
use general_purpose_library.Prelude.{Option, none, some, if◌then◌else◌, ℤ, pos, eqb_ℤ}
use general_purpose_library.Gpio.{
  Direction, input, output, dir_butt, Edge, no_edge, rising, falling, both, edge_butt, Sysfs,
  gpio_base_export, gpio_base_is_exist, gpio_base_get_direction, gpio_base_set_direction,
  gpio_base_get_edge, gpio_base_set_edge, gpio_base_set_value, gpio_base_get_value,
}

module _ {ℓ} {W : Type ℓ} (sys : Sysfs W) where
  unfoldable pub ensure_exported : ℤ → W → W
  ensure_exported ngpio w =
      if eqb_ℤ (gpio_base_is_exist sys ngpio w) (pos 0) then (gpio_base_export sys ngpio w).1 else w

  -- `GPIO_EDGE_NONE != gpio_base_get_edge(ngpio)`
  abbrev pub clear_edge : ℤ → Option Edge × W → W
  clear_edge ngpio (some no_edge, w) = w
  clear_edge ngpio (some rising, w) = (gpio_base_set_edge sys ngpio no_edge w).1
  clear_edge ngpio (some falling, w) = (gpio_base_set_edge sys ngpio no_edge w).1
  clear_edge ngpio (some both, w) = (gpio_base_set_edge sys ngpio no_edge w).1
  clear_edge ngpio (some edge_butt, w) = (gpio_base_set_edge sys ngpio no_edge w).1
  clear_edge ngpio (none, w) = (gpio_base_set_edge sys ngpio no_edge w).1

  abbrev pub make_output : ℤ → Direction × W → W
  make_output ngpio (output, w) = w
  make_output ngpio (dir_butt, w) = w
  make_output ngpio (input, w) =
      (gpio_base_set_direction sys ngpio output
        (clear_edge ngpio (gpio_base_get_edge sys ngpio w))).1

  unfoldable pub gpio_ctrl_set_value : ℤ → ℤ → W → ℤ × W
  gpio_ctrl_set_value ngpio value w =
      let ready = make_output ngpio (gpio_base_get_direction sys ngpio (ensure_exported ngpio w)) in
      (pos 0, (gpio_base_set_value sys ngpio value ready).1)

  unfoldable pub gpio_ctrl_get_value : ℤ → W → ℤ × W
  gpio_ctrl_get_value ngpio w = gpio_base_get_value sys ngpio (ensure_exported ngpio w)

  abbrev pub make_input : ℤ → Direction × W → W
  make_input ngpio (output, w) = (gpio_base_set_direction sys ngpio input w).1
  make_input ngpio (input, w) = w
  make_input ngpio (dir_butt, w) = w

  unfoldable pub gpio_ctrl_set_edge : ℤ → Edge → W → ℤ × W
  gpio_ctrl_set_edge ngpio edge w =
      let ready = make_input ngpio (gpio_base_get_direction sys ngpio (ensure_exported ngpio w)) in
      (pos 0, (gpio_base_set_edge sys ngpio edge ready).1)
