-- ===== src/Gpio.antt =====
-- linux/gpio/gpio_base.c: pins by the files below /sys/class/gpio. A path is given by its parts, and a
-- text by its bytes; the calls of the system are the fields of `Sysfs`, and `W` is the state behind
-- them.
pub mod Files
pub mod Ctrl
pub mod Pin
pub mod Access
pub mod Settings
mod Tests
use general_purpose_library.Prelude.{
  ℕ, zero, suc, ◌+◌, ◌-◌, ◌^◌, Bool, true, false, Option, none, some, List, [], ◌∷◌, ◌==◌,
  if◌then◌else◌, ℤ, pos, negsuc, ◌-ℤ◌, ltb_ℤ, eqb_ℤ, to_u64,
}
use general_purpose_library.Decimal.{decimal, scan_signed, until_nul}
use general_purpose_library.KernelList.{is_nil}

-- gpio_direction_e
pub data Direction : Type 0 where
  input output dir_butt : Direction

-- gpio_edge_e
pub data Edge : Type 0 where
  no_edge rising falling both edge_butt : Edge

abbrev pub ret_ok : ℤ
ret_ok = pos 1

abbrev pub ret_fail : ℤ
ret_fail = negsuc 0

pub data GpioFile : Type 0 where
  export_file unexport_file : GpioFile
  pin_directory direction_file edge_file value_file : ℤ → GpioFile

-- open for reading or writing, access, read with what it stores, write and close; the results of
-- the last two are not looked at.
pub record Sysfs {ℓ} (W : Type ℓ) : Type ℓ where
  pub access : GpioFile → ℕ → W → ℤ
  pub open_read : GpioFile → W → ℤ × W
  pub open_write : GpioFile → W → ℤ × W
  pub read_file : ℤ → ℕ → W → ℤ × List ℕ × W
  pub write_file : ℤ → List ℕ → W → W
  pub close_file : ℤ → W → W

-- `0 == strncmp(a, b, n)` for strings without their terminators
abbrev pub strncmp_eq : List ℕ → List ℕ → ℕ → Bool
strncmp_eq [] [] n = true
strncmp_eq [] (b ∷ bs) n = n == 0
strncmp_eq (a ∷ as') [] n = n == 0
strncmp_eq (a ∷ as') (b ∷ bs) n =
    if n == 0 then true else if a == b then strncmp_eq as' bs (n - 1) else false

abbrev pub in_text : List ℕ
in_text = 105 ∷ 110 ∷ []

abbrev pub out_text : List ℕ
out_text = 111 ∷ 117 ∷ 116 ∷ []

abbrev pub direction_text : Direction → List ℕ
direction_text input = in_text
direction_text output = out_text
direction_text dir_butt = []

abbrev pub edge_text : Edge → List ℕ
edge_text no_edge = 110 ∷ 111 ∷ 110 ∷ 101 ∷ []
edge_text rising = 114 ∷ 105 ∷ 115 ∷ 105 ∷ 110 ∷ 103 ∷ []
edge_text falling = 102 ∷ 97 ∷ 108 ∷ 108 ∷ 105 ∷ 110 ∷ 103 ∷ []
edge_text both = 98 ∷ 111 ∷ 116 ∷ 104 ∷ []
edge_text edge_butt = []

-- What a read of `len` bytes into a buffer of zeros is compared with: `len - 1` bytes at most, as a
-- size_t
abbrev pub reads_as : List ℕ → ℤ → List ℕ → Bool
reads_as bytes len word = strncmp_eq (until_nul bytes) word (to_u64 (len -ℤ pos 1))

abbrev pub parse_direction : ℤ → List ℕ → Direction
parse_direction len bytes =
    if reads_as bytes len in_text
    then input
    else if reads_as bytes len out_text
    then output
    else dir_butt

abbrev pub parse_edge : ℤ → List ℕ → Edge
parse_edge len bytes =
    if reads_as bytes len (edge_text no_edge)
    then no_edge
    else if reads_as bytes len (edge_text rising)
    then rising
    else if reads_as bytes len (edge_text falling)
    then falling
    else if reads_as bytes len (edge_text both)
    then both
    else edge_butt

module _ {ℓ} {W : Type ℓ} (sys : Sysfs W) where
  -- The body that the routines which write a text share: open, write, close
  pub write_text : GpioFile → List ℕ → W → ℤ × W
  write_text file text w =
      let (fd, w1) = sys.open_write file w in
      if ltb_ℤ fd (pos 0)
      then (ret_fail, w1)
      else (ret_ok, sys.close_file fd (sys.write_file fd text w1))

  -- The body that those which read share: `none` where the file is not opened
  pub read_text : GpioFile → W → Option (ℤ × List ℕ) × W
  read_text file w =
      let (fd, w1) = sys.open_read file w in
      let (len, bytes, w2) = sys.read_file fd 64 w1 in
      if ltb_ℤ fd (pos 0) then (none, w1) else (some (len, bytes), sys.close_file fd w2)

  pub gpio_base_export : ℤ → W → ℤ × W
  gpio_base_export ngpio w = write_text export_file (decimal ngpio) w

  unfoldable pub gpio_base_unexport : ℤ → W → ℤ × W
  gpio_base_unexport ngpio w = write_text unexport_file (decimal ngpio) w

  -- The mode is written 0666, which is 438.
  pub gpio_base_is_exist : ℤ → W → ℤ
  gpio_base_is_exist ngpio w =
      if eqb_ℤ (pos 0) (sys.access (pin_directory ngpio) 438 w) then pos 1 else pos 0

  pub gpio_base_set_direction : ℤ → Direction → W → ℤ × W
  gpio_base_set_direction ngpio dir_butt w = (ret_fail, w)
  gpio_base_set_direction ngpio input w = write_text (direction_file ngpio) (direction_text input) w
  gpio_base_set_direction ngpio output w =
      write_text (direction_file ngpio) (direction_text output) w

  abbrev pub direction_read : Option (ℤ × List ℕ) × W → Direction × W
  direction_read (none, w) = (dir_butt, w)
  direction_read (some (len, bytes), w) = (parse_direction len bytes, w)

  pub gpio_base_get_direction : ℤ → W → Direction × W
  gpio_base_get_direction ngpio w = direction_read (read_text (direction_file ngpio) w)

  pub gpio_base_set_edge : ℤ → Edge → W → ℤ × W
  gpio_base_set_edge ngpio edge_butt w = (ret_fail, w)
  gpio_base_set_edge ngpio no_edge w = write_text (edge_file ngpio) (edge_text no_edge) w
  gpio_base_set_edge ngpio rising w = write_text (edge_file ngpio) (edge_text rising) w
  gpio_base_set_edge ngpio falling w = write_text (edge_file ngpio) (edge_text falling) w
  gpio_base_set_edge ngpio both w = write_text (edge_file ngpio) (edge_text both) w

  -- `none` is GPIO_BASE_RET_FAIL, which is no value of the enumeration.
  abbrev pub edge_read : Option (ℤ × List ℕ) × W → Option Edge × W
  edge_read (none, w) = (none, w)
  edge_read (some (len, bytes), w) = (some (parse_edge len bytes), w)

  pub gpio_base_get_edge : ℤ → W → Option Edge × W
  gpio_base_get_edge ngpio w = edge_read (read_text (edge_file ngpio) w)

  pub gpio_base_set_value : ℤ → ℤ → W → ℤ × W
  gpio_base_set_value ngpio value w = write_text (value_file ngpio) (decimal value) w

  abbrev pub value_read : Option (ℤ × List ℕ) × W → ℤ × W
  value_read (none, w) = (ret_fail, w)
  value_read (some (len, bytes), w) = (scan_signed (pos 0) (until_nul bytes), w)

  pub gpio_base_get_value : ℤ → W → ℤ × W
  gpio_base_get_value ngpio w = value_read (read_text (value_file ngpio) w)

  unfoldable pub gpio_base_open : ℤ → W → ℤ × W
  gpio_base_open ngpio w = sys.open_write (value_file ngpio) w

  unfoldable pub gpio_base_close : ℤ → W → ℤ × W
  gpio_base_close fd w = if ltb_ℤ fd (pos 0) then (ret_fail, w) else (ret_ok, sys.close_file fd w)
