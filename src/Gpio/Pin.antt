-- ===== src/Gpio/Pin.antt =====
-- What linux/gpio relies on from the files of a pin, as the documentation of the sysfs interface has it.
use general_purpose_library.Prelude.{
  ℕ, ◌≡◌, Bool, true, false, ◌&&◌, List, [], ◌∷◌, ◌++◌, Option, some, if◌then◌else◌, ℤ, pos, ltb_ℤ,
  eqb_ℤ, length,
}
use general_purpose_library.Decimal.{decimal}
use general_purpose_library.Gpio.{
  Direction, input, output, Edge, no_edge, rising, falling, both, edge_butt, GpioFile, export_file,
  pin_directory, direction_file, edge_file, value_file, Sysfs, direction_text, edge_text,
}

-- A pin as the driver keeps it, with active_low at 0. `has_edge` is whether the pin can generate
-- interrupts, and so has an edge file. `is_high` is the level that an output has; that of an input is
-- not described.
pub record Pin : Type 0 where
  pub exported : Bool
  pub is_output : Bool
  pub has_edge : Bool
  pub edge : Edge
  pub is_high : Bool

-- What can be written for a pin
pub data Setting : Type 0 where
  exporting : Setting
  direction_to : Bool → Setting
  edge_to : Edge → Setting
  value_to : Bool → Setting

pub data PinFile : Type 0 where
  exports directions edges values : PinFile

abbrev pub written_to : Setting → PinFile
written_to exporting = exports
written_to (direction_to d) = directions
written_to (edge_to e) = edges
written_to (value_to b) = values

abbrev pub pin_file : ℤ → PinFile → GpioFile
pin_file ngpio exports = export_file
pin_file ngpio directions = direction_file ngpio
pin_file ngpio edges = edge_file ngpio
pin_file ngpio values = value_file ngpio

abbrev pub direction_of : Bool → Direction
direction_of true = output
direction_of false = input

abbrev pub level : Bool → ℤ
level true = pos 1
level false = pos 0

abbrev pub setting_text : ℤ → Setting → List ℕ
setting_text ngpio exporting = decimal ngpio
setting_text ngpio (direction_to d) = direction_text (direction_of d)
setting_text ngpio (edge_to e) = edge_text e
setting_text ngpio (value_to b) = decimal (level b)

abbrev pub has_irq : Edge → Bool
has_irq no_edge = false
has_irq rising = true
has_irq falling = true
has_irq both = true
has_irq edge_butt = false

-- A pin with an edge is not made an output, which starts at the low level; one that is an output
-- takes no edge, and one that is none takes no value.
abbrev pub drive : Setting → Pin → Pin
drive exporting pin = record pin { exported = true }
drive (direction_to false) pin = record pin { is_output = false }
drive (direction_to true) pin =
    if pin.has_edge && has_irq pin.edge
    then pin
    else record pin { is_output = true; is_high = false }
drive (edge_to e) pin = if pin.is_output then pin else record pin { edge = e }
drive (value_to b) pin = if pin.is_output then record pin { is_high = b } else pin

abbrev pub pin_text : PinFile → Pin → List ℕ
pin_text exports pin = []
pin_text directions pin = direction_text (direction_of pin.is_output)
pin_text edges pin = edge_text pin.edge
pin_text values pin = decimal (level pin.is_high)

abbrev pub IsThere : PinFile → Pin → Type 0
IsThere exports pin = Unit {0}
IsThere directions pin = pin.exported ≡ true
IsThere edges pin = (pin.exported ≡ true) × (pin.has_edge ≡ true)
IsThere values pin = pin.exported ≡ true

-- The files whose text the state of the pin gives. The one that exports pins is only written.
abbrev pub IsTold : PinFile → Pin → Type 0
IsTold exports pin = ⊥
IsTold directions pin = pin.exported ≡ true
IsTold edges pin = (pin.exported ≡ true) × (pin.has_edge ≡ true)
IsTold values pin = (pin.exported ≡ true) × (pin.is_output ≡ true)

module _ {ℓ} {W : Type ℓ} (sys : Sysfs W) (ngpio : ℤ) where
  -- The descriptor refers to `target`, and reading gives the text with a line feed and its length.
  pub record IsPin : Type ℓ where
    pub state : W → Pin
    pub target : W → ℤ → Option PinFile
    pub accesses :
        (mode : ℕ) (w : W)
        → eqb_ℤ (pos 0) (sys.access (pin_directory ngpio) mode w) ≡ true
        → (state w).exported ≡ true
    pub opens_write :
        (file : PinFile) (w : W)
        → IsThere file (state w)
        → let (fd, w1) = sys.open_write (pin_file ngpio file) w in
          (ltb_ℤ fd (pos 0) ≡ false) × (target w1 fd ≡ some file) × (state w1 ≡ state w)
    pub opens_read :
        (file : PinFile) (w : W)
        → IsTold file (state w)
        → let (fd, w1) = sys.open_read (pin_file ngpio file) w in
          (ltb_ℤ fd (pos 0) ≡ false) × (target w1 fd ≡ some file) × (state w1 ≡ state w)
    pub no_edge_write :
        (w : W)
        → (state w).has_edge ≡ false
        → let (fd, w1) = sys.open_write (edge_file ngpio) w in
          (ltb_ℤ fd (pos 0) ≡ true) × (state w1 ≡ state w)
    pub no_edge_read :
        (w : W)
        → (state w).has_edge ≡ false
        → let (fd, w1) = sys.open_read (edge_file ngpio) w in
          (ltb_ℤ fd (pos 0) ≡ true) × (state w1 ≡ state w)
    pub writes :
        (setting : Setting) (fd : ℤ) (w : W)
        → target w fd ≡ some (written_to setting)
        → state (sys.write_file fd (setting_text ngpio setting) w) ≡ drive setting (state w)
    pub reads :
        (file : PinFile) (fd : ℤ) (w : W)
        → target w fd ≡ some file
        → IsTold file (state w)
        → let (len, bytes, w1) = sys.read_file fd 64 w in
          let text = pin_text file (state w) ++ (10 ∷ []) in
          (len ≡ pos (length text)) × (bytes ≡ text) × (state w1 ≡ state w)
    pub closes : (fd : ℤ) (w : W) → state (sys.close_file fd w) ≡ state w
