-- ===== src/Gpio/Settings.antt =====
-- linux/gpio/gpio_ctrl.c on a pin whose files do what the documentation of the sysfs interface says.
use mathlib.Core.Path.{subst}
use general_purpose_library.Prelude.{◌≡◌, refl, ap, ◌∙◌, Bool, true, false, Option, some, ℤ}
use general_purpose_library.Gpio.{
  output, Edge, Sysfs, gpio_base_get_direction, gpio_base_set_direction, gpio_base_get_edge,
  gpio_base_set_edge, gpio_base_set_value,
}
use general_purpose_library.Gpio.Pin.{Pin, value_to, directions, direction_of, level, IsPin}
use general_purpose_library.Gpio.Ctrl.{
  ensure_exported, clear_edge, make_output, make_input, gpio_ctrl_set_value, gpio_ctrl_set_edge,
}
use general_purpose_library.Gpio.Access.{
  edge_back, IsSettable, edge_back-settable, put_setting, exported_lem, past, get_direction,
  get_edge, set_direction, set_edge, IsClear, cleared,
}

module _ {ℓ} {W : Type ℓ} (sys : Sysfs W) (ngpio : ℤ) (laws : IsPin sys ngpio) where
  abbrev IsOutput : Pin → Type 0
  IsOutput pin = (pin.exported ≡ true) × (pin.is_output ≡ true)

  abbrev IsInput : Pin → Type 0
  IsInput pin = (pin.exported ≡ true) × (pin.is_output ≡ false) × (pin.has_edge ≡ true)

  output_lem :
      (b : Bool) (w : W)
      → (laws.state w).exported ≡ true
      → (laws.state w).is_output ≡ b
      → IsOutput (laws.state (make_output sys ngpio (direction_of b, w)))
  output_lem true w there h = (there, h)
  output_lem false w there h =
      made (clear_edge sys ngpio (gpio_base_get_edge sys ngpio w))
        (cleared sys ngpio laws w there h)
    where
      made :
          (w2 : W)
          → IsClear sys ngpio laws (laws.state w2)
          → IsOutput (laws.state (gpio_base_set_direction sys ngpio output w2).1)
      made w2 (there2, clear2) =
          rw (set_direction sys ngpio laws true w2 there2, clear2) (there2, refl)

  input_lem :
      (b : Bool) (w : W)
      → (laws.state w).exported ≡ true
      → (laws.state w).has_edge ≡ true
      → (laws.state w).is_output ≡ b
      → IsInput (laws.state (make_input sys ngpio (direction_of b, w)))
  input_lem false w there has h = (there, h, has)
  input_lem true w there has h = rw (set_direction sys ngpio laws false w there) (there, refl, has)

  exported_is_there : (w : W) → (laws.state (ensure_exported sys ngpio w)).exported ≡ true
  exported_is_there w = ap (λ (p : Pin). p.exported) (exported_lem sys ngpio laws w)

  becomes_out :
      (w : W)
      → (laws.state w).exported ≡ true
      → IsOutput (laws.state (make_output sys ngpio (gpio_base_get_direction sys ngpio w)))
  becomes_out w there =
      let (got, same) = get_direction sys ngpio laws w there in
      rw got (
        output_lem (laws.state w).is_output (past sys ngpio laws directions w)
          (ap (λ (p : Pin). p.exported) same ∙ there) (ap (λ (p : Pin). p.is_output) same))

  becomes_in :
      (w : W)
      → (laws.state w).exported ≡ true
      → (laws.state w).has_edge ≡ true
      → IsInput (laws.state (make_input sys ngpio (gpio_base_get_direction sys ngpio w)))
  becomes_in w there has =
      let (got, same) = get_direction sys ngpio laws w there in
      rw got (
        input_lem (laws.state w).is_output (past sys ngpio laws directions w)
          (ap (λ (p : Pin). p.exported) same ∙ there) (ap (λ (p : Pin). p.has_edge) same ∙ has)
          (ap (λ (p : Pin). p.is_output) same))

  -- After gpio_ctrl_set_value the pin is exported, is an output and has the level that was given.
  pub gpio_ctrl_set_value_lem :
      (b : Bool) (w : W)
      → let pin = laws.state (gpio_ctrl_set_value sys ngpio (level b) w).1 in
        (pin.exported ≡ true) × (pin.is_output ≡ true) × (pin.is_high ≡ b)
  unfolding gpio_ctrl_set_value gpio_base_set_value
  gpio_ctrl_set_value_lem b w =
      let (there, out) = becomes_out (ensure_exported sys ngpio w) (exported_is_there w) in
      rw (put_setting sys ngpio laws (value_to b) _ there, out) (there, refl, refl)

  set_edge_lem :
      (e : Edge) (w : W)
      → IsSettable e
      → IsInput (laws.state w)
      → laws.state (gpio_base_set_edge sys ngpio e w).1 ≡ record (laws.state w) { edge = e }
  set_edge_lem e w real (there, taken_in, has) =
      subst
        (λ (d : Edge).
          laws.state (gpio_base_set_edge sys ngpio d w).1 ≡ record (laws.state w) { edge = d })
        (edge_back-settable e real) (set_edge sys ngpio laws e w (there, has) ∙ rw taken_in refl)

  -- On such a pin that can generate interrupts, whatever state it is in, the edge that
  -- gpio_ctrl_set_edge is given, one of the four settings, is what gpio_base_get_edge reads
  -- afterwards.
  pub gpio_base_get_edge-set_edge :
      (e : Edge) (w : W)
      → IsSettable e
      → (laws.state w).has_edge ≡ true
      → (gpio_base_get_edge sys ngpio (gpio_ctrl_set_edge sys ngpio e w).1).0 ≡ some e
  unfolding gpio_ctrl_set_edge
  gpio_base_get_edge-set_edge e w real has =
      let (there, taken_in, has1) =
        becomes_in (ensure_exported sys ngpio w) (exported_is_there w)
          (ap (λ (p : Pin). p.has_edge) (exported_lem sys ngpio laws w) ∙ has) in
      let w1 =
        make_input sys ngpio (gpio_base_get_direction sys ngpio (ensure_exported sys ngpio w)) in
      let set = set_edge_lem e w1 real (there, taken_in, has1) in
      ap (λ (r : Option Edge × W). r.0)
        (get_edge sys ngpio laws (gpio_base_set_edge sys ngpio e w1).1
          (ap (λ (p : Pin). p.exported) set ∙ there, ap (λ (p : Pin). p.has_edge) set ∙ has1)).0
      ∙ ap (λ (p : Pin). some (edge_back p.edge)) set
      ∙ ap some (edge_back-settable e real)
