-- ===== src/Gpio/Access.antt =====
-- The routines of linux/gpio/gpio_base.c on a pin as Pin has it: what they read and what they set.
use mathlib.Core.Path.{subst}
use general_purpose_library.Prelude.{
  ℕ, ◌≡◌, refl, ap, ◌∙◌, Bool, true, false, List, [], ◌∷◌, ◌++◌, some, ℤ, pos, eqb_ℤ, ◌-ℤ◌, to_u64,
  length, Bool-cases, inl, inr, sym, none, ◌&&◌, Option, ltb_ℤ,
}
use general_purpose_library.Gpio.{
  Direction, Edge, no_edge, rising, falling, both, edge_butt, pin_directory, GpioFile, edge_file,
  Sysfs, write_text, read_text, direction_text, edge_text, direction_read, edge_read,
  parse_direction, parse_edge, gpio_base_export, gpio_base_is_exist, gpio_base_get_direction,
  gpio_base_set_direction, gpio_base_get_edge, gpio_base_set_edge,
}
use general_purpose_library.Gpio.Pin.{
  Pin, Setting, exporting, direction_to, edge_to, PinFile, directions, edges, written_to, pin_file,
  direction_of, setting_text, has_irq, drive, pin_text, IsThere, IsTold, IsPin,
}
use general_purpose_library.Gpio.Ctrl.{ensure_exported, clear_edge}

-- How the text of an edge is read
abbrev pub edge_back : Edge → Edge
edge_back no_edge = no_edge
edge_back rising = rising
edge_back falling = falling
edge_back both = both
edge_back edge_butt = no_edge

-- The values that are a setting
abbrev pub IsSettable : Edge → Type 0
IsSettable no_edge = Unit {0}
IsSettable rising = Unit {0}
IsSettable falling = Unit {0}
IsSettable both = Unit {0}
IsSettable edge_butt = ⊥

pub edge_back-settable : (e : Edge) → IsSettable e → edge_back e ≡ e
edge_back-settable no_edge h = refl
edge_back-settable rising h = refl
edge_back-settable falling h = refl
edge_back-settable both h = refl
edge_back-settable edge_butt h = absurd h

module _ {ℓ} {W : Type ℓ} (sys : Sysfs W) (ngpio : ℤ) (laws : IsPin sys ngpio) where
  pub put_setting :
      (setting : Setting) (w : W)
      → IsThere (written_to setting) (laws.state w)
      → laws.state
          (write_text sys (pin_file ngpio (written_to setting)) (setting_text ngpio setting) w).1
        ≡ drive setting (laws.state w)
  unfolding write_text
  put_setting setting w there =
      let (opened, target, same) = laws.opens_write (written_to setting) w there in
      rw opened (laws.closes _ _ ∙ laws.writes setting _ _ target ∙ ap (drive setting) same)

  -- A text as it is read, with its length
  abbrev as_read : List ℕ → ℤ × List ℕ
  as_read text = (pos (length (text ++ (10 ∷ []))), text ++ (10 ∷ []))

  pub take_text :
      (file : PinFile) (w : W)
      → IsTold file (laws.state w)
      → (read_text sys (pin_file ngpio file) w ≡ (
        some (as_read (pin_text file (laws.state w))),
        (read_text sys (pin_file ngpio file) w).1,
      ))
        × (laws.state (read_text sys (pin_file ngpio file) w).1 ≡ laws.state w)
  unfolding read_text
  take_text file w there =
      let (opened, target, same) = laws.opens_read file w there in
      let (len, bytes, kept) = laws.reads file _ _ target (subst (IsTold file) (sym same) there) in
      rw (opened, len, bytes, same) (refl, laws.closes _ _ ∙ kept ∙ same)

  pub exported_lem :
      (w : W) → laws.state (ensure_exported sys ngpio w) ≡ drive exporting (laws.state w)
  unfolding ensure_exported gpio_base_export gpio_base_is_exist
  exported_lem w = elim (Bool-cases (eqb_ℤ (pos 0) (sys.access (pin_directory ngpio) 438 w))) [
    | inl there ↦
        rw there
          (ap (λ (e : Bool). record (laws.state w) { exported = e }) (laws.accesses 438 w there))
    | inr absent ↦ rw absent (put_setting exporting w tt)
  ]

  read_direction :
      (b : Bool)
      → parse_direction
          (as_read (direction_text (direction_of b))).0
          (as_read (direction_text (direction_of b))).1
        ≡ direction_of b
  unfolding to_u64 ◌-ℤ◌
  read_direction true = refl
  read_direction false = refl

  read_edge :
      (e : Edge) → parse_edge (as_read (edge_text e)).0 (as_read (edge_text e)).1 ≡ edge_back e
  unfolding to_u64 ◌-ℤ◌
  read_edge no_edge = refl
  read_edge rising = refl
  read_edge falling = refl
  read_edge both = refl
  read_edge edge_butt = refl

  -- The state after a read
  abbrev pub past : PinFile → W → W
  past file w = (read_text sys (pin_file ngpio file) w).1

  pub get_direction :
      (w : W)
      → (laws.state w).exported ≡ true
      → (gpio_base_get_direction sys ngpio w
          ≡ (direction_of (laws.state w).is_output, past directions w))
        × (laws.state (past directions w) ≡ laws.state w)
  unfolding gpio_base_get_direction
  get_direction w there =
      let (taken, same) = take_text directions w there in
      (
        ap (direction_read sys) taken
            ∙ ap (λ (d : Direction). (d, past directions w))
                (read_direction (laws.state w).is_output),
        same,
      )

  pub get_edge :
      (w : W)
      → IsTold edges (laws.state w)
      → (gpio_base_get_edge sys ngpio w ≡ (some (edge_back (laws.state w).edge), past edges w))
        × (laws.state (past edges w) ≡ laws.state w)
  unfolding gpio_base_get_edge
  get_edge w there =
      let (taken, same) = take_text edges w there in
      (
        ap (edge_read sys) taken
            ∙ ap (λ (e : Edge). (some e, past edges w)) (read_edge (laws.state w).edge),
        same,
      )

  read_fails :
      (file : GpioFile) (w : W)
      → ltb_ℤ (sys.open_read file w).0 (pos 0) ≡ true
      → read_text sys file w ≡ (none, (sys.open_read file w).1)
  unfolding read_text
  read_fails file w h = rw (read_text, h) refl

  -- A pin that cannot generate interrupts has no edge to read or to set.
  pub get_no_edge :
      (w : W)
      → (laws.state w).has_edge ≡ false
      → (gpio_base_get_edge sys ngpio w ≡ (none, past edges w))
        × (laws.state (past edges w) ≡ laws.state w)
  unfolding gpio_base_get_edge
  get_no_edge w absent =
      let (fails, same) = laws.no_edge_read w absent in
      let left = read_fails (edge_file ngpio) w fails in
      let after = ap (λ (r : Option (ℤ × List ℕ) × W). r.1) left in
      (ap (edge_read sys) left ∙ ap (λ (u : W). (none, u)) (sym after), ap laws.state after ∙ same)

  set_no_edge :
      (w : W)
      → (laws.state w).has_edge ≡ false
      → laws.state (gpio_base_set_edge sys ngpio no_edge w).1 ≡ laws.state w
  unfolding gpio_base_set_edge write_text
  set_no_edge w absent = let (fails, same) = laws.no_edge_write w absent in rw fails same

  pub set_direction :
      (b : Bool) (w : W)
      → (laws.state w).exported ≡ true
      → laws.state (gpio_base_set_direction sys ngpio (direction_of b) w).1
        ≡ drive (direction_to b) (laws.state w)
  unfolding gpio_base_set_direction
  set_direction true w there = put_setting (direction_to true) w there
  set_direction false w there = put_setting (direction_to false) w there

  pub set_edge :
      (e : Edge) (w : W)
      → IsThere edges (laws.state w)
      → laws.state (gpio_base_set_edge sys ngpio (edge_back e) w).1
        ≡ drive (edge_to (edge_back e)) (laws.state w)
  unfolding gpio_base_set_edge
  set_edge no_edge w there = put_setting (edge_to no_edge) w there
  set_edge rising w there = put_setting (edge_to rising) w there
  set_edge falling w there = put_setting (edge_to falling) w there
  set_edge both w there = put_setting (edge_to both) w there
  set_edge edge_butt w there = put_setting (edge_to no_edge) w there

  -- Whether a pin can be made an output
  abbrev pub IsClear : Pin → Type 0
  IsClear pin = (pin.exported ≡ true) × (pin.has_edge && has_irq pin.edge ≡ false)

  pub clear_edge_lem :
      (e : Edge) (w : W)
      → IsThere edges (laws.state w)
      → (laws.state w).is_output ≡ false
      → (laws.state w).edge ≡ e
      → IsClear (laws.state (clear_edge sys ngpio (some (edge_back e), w)))
  clear_edge_lem no_edge w (there, has) out h = (there, rw (has, h) refl)
  clear_edge_lem edge_butt w (there, has) out h = (there, rw (has, h) refl)
  clear_edge_lem rising w (there, has) out h =
      let s = set_edge no_edge w (there, has) in rw (s, out, has) (there, refl)
  clear_edge_lem falling w (there, has) out h =
      let s = set_edge no_edge w (there, has) in rw (s, out, has) (there, refl)
  clear_edge_lem both w (there, has) out h =
      let s = set_edge no_edge w (there, has) in rw (s, out, has) (there, refl)

  -- After the edge is read and cleared, where there is one
  pub cleared :
      (w : W)
      → (laws.state w).exported ≡ true
      → (laws.state w).is_output ≡ false
      → IsClear (laws.state (clear_edge sys ngpio (gpio_base_get_edge sys ngpio w)))
  cleared w there out = elim (Bool-cases (laws.state w).has_edge) [
    | inl has ↦
        let (got, same) = get_edge w (there, has) in
        rw got (
          clear_edge_lem (laws.state w).edge (past edges w)
            (subst (IsThere edges) (sym same) (there, has))
            (ap (λ (p : Pin). p.is_output) same ∙ out) (ap (λ (p : Pin). p.edge) same))
    | inr absent ↦
        let (got, same) = get_no_edge w absent in
        let kept = set_no_edge (past edges w) (ap (λ (p : Pin). p.has_edge) same ∙ absent) ∙ same in
        rw (got, kept, absent) (there, refl)
  ]
