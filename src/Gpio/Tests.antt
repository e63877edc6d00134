-- ===== src/Gpio/Tests.antt =====
-- Pin 17 of a device, whose files are opened one at a time.
use mathlib.Core.Path.{subst}
use general_purpose_library.Prelude.{
  ℕ, suc, ◌-◌, ◌≡◌, refl, sym, ap, ◌∙◌, Bool, true, false, ◌&&◌, List, [], ◌∷◌, ◌++◌, ◌==◌, Option,
  none, some, if◌then◌else◌, ℤ, pos, negsuc, ltb_ℤ, length, arith,
}
use general_purpose_library.Decimal.{digits, decimal}
use general_purpose_library.Gpio.{
  Edge, no_edge, rising, falling, both, edge_butt, GpioFile, export_file, unexport_file,
  pin_directory, direction_file, edge_file, value_file, Sysfs,
}
use general_purpose_library.Gpio.Ctrl.{gpio_ctrl_set_value, gpio_ctrl_get_value, gpio_ctrl_set_edge}
use general_purpose_library.Gpio.Pin.{
  Pin, Setting, exporting, direction_to, edge_to, value_to, PinFile, exports, directions, edges,
  values, drive, pin_text, pin_file, IsPin, IsTold, IsThere, written_to, setting_text,
}
use general_purpose_library.Gpio.Files.{CountsFiles, gpio_ctrl_files}

record Device : Type 0 where
  pin : Pin
  target : Option PinFile
  files : ℕ

abbrev listening : Device
listening = record {
  pin = record {
    exported = false;
    is_output = false;
    has_edge = true;
    edge = both;
    is_high = false;
  };
  target = none;
  files = 3;
}

abbrev to_pin_file : GpioFile → Option PinFile
to_pin_file export_file = some exports
to_pin_file unexport_file = none
to_pin_file (pin_directory n) = none
to_pin_file (direction_file n) = some directions
to_pin_file (edge_file n) = some edges
to_pin_file (value_file n) = some values

abbrev opens : Bool → PinFile → Device → ℤ × Device
opens there exports w = (pos 3, record w { target = some exports; files = suc w.files })
opens true directions w = (pos 3, record w { target = some directions; files = suc w.files })
opens true edges w = (pos 3, record w { target = some edges; files = suc w.files })
opens true values w = (pos 3, record w { target = some values; files = suc w.files })
opens false directions w = (negsuc 0, w)
opens false edges w = (negsuc 0, w)
opens false values w = (negsuc 0, w)

abbrev open_device : GpioFile → Device → ℤ × Device
open_device export_file w = opens w.pin.exported exports w
open_device unexport_file w = (negsuc 0, w)
open_device (pin_directory n) w = (negsuc 0, w)
open_device (direction_file n) w = opens w.pin.exported directions w
open_device (edge_file n) w = opens (w.pin.has_edge && w.pin.exported) edges w
open_device (value_file n) w = opens w.pin.exported values w

-- The file that exports pins is only written.
abbrev open_to_read : GpioFile → Device → ℤ × Device
open_to_read export_file w = (negsuc 0, w)
open_to_read unexport_file w = open_device unexport_file w
open_to_read (pin_directory n) w = open_device (pin_directory n) w
open_to_read (direction_file n) w = open_device (direction_file n) w
open_to_read (edge_file n) w = open_device (edge_file n) w
open_to_read (value_file n) w = open_device (value_file n) w

-- The first letters tell the texts apart.
abbrev edge_named : List ℕ → Edge
edge_named [] = edge_butt
edge_named (c ∷ cs) =
    if c == 110 then no_edge else if c == 114 then rising else if c == 102 then falling else both

abbrev starts_with : ℕ → List ℕ → Bool
starts_with a [] = false
starts_with a (c ∷ cs) = c == a

abbrev setting_of : PinFile → List ℕ → Setting
setting_of exports text = exporting
setting_of directions text = direction_to (starts_with 111 text)
setting_of edges text = edge_to (edge_named text)
setting_of values text = value_to (starts_with 49 text)

abbrev write_device : Option PinFile → List ℕ → Device → Device
write_device none text w = w
write_device (some file) text w = record w { pin = drive (setting_of file text) w.pin }

abbrev read_device : Option PinFile → Device → ℤ × List ℕ × Device
read_device none w = (negsuc 0, [], w)
read_device (some file) w =
    let text = pin_text file w.pin ++ (10 ∷ []) in (pos (length text), text, w)

abbrev device : Sysfs Device
device = record {
  access = λ file mode w. negsuc 0;
  open_read = open_to_read;
  open_write = open_device;
  read_file = λ fd len w. read_device w.target w;
  write_file = λ fd text w. write_device w.target text w;
  close_file = λ fd w. record w { files = w.files - 1; target = none };
}

abbrev Opened : (GpioFile → Device → ℤ × Device) → GpioFile → Device → Type 0
Opened opening file w =
    (opening file w).1.files ≡ (if ltb_ℤ (opening file w).0 (pos 0) then w.files else suc w.files)

opens_files :
    (b : Bool) (file : PinFile) (w : Device)
    → (opens b file w).1.files ≡ (if ltb_ℤ (opens b file w).0 (pos 0) then w.files else suc w.files)
opens_files true exports w = refl
opens_files false exports w = refl
opens_files true directions w = refl
opens_files false directions w = refl
opens_files true edges w = refl
opens_files false edges w = refl
opens_files true values w = refl
opens_files false values w = refl

open_files : (file : GpioFile) (w : Device) → Opened open_device file w
open_files export_file w = opens_files w.pin.exported exports w
open_files unexport_file w = refl
open_files (pin_directory n) w = refl
open_files (direction_file n) w = opens_files w.pin.exported directions w
open_files (edge_file n) w = opens_files (w.pin.has_edge && w.pin.exported) edges w
open_files (value_file n) w = opens_files w.pin.exported values w

read_opens : (file : GpioFile) (w : Device) → Opened open_to_read file w
read_opens export_file w = refl
read_opens unexport_file w = refl
read_opens (pin_directory n) w = refl
read_opens (direction_file n) w = open_files (direction_file n) w
read_opens (edge_file n) w = open_files (edge_file n) w
read_opens (value_file n) w = open_files (value_file n) w

read_files : (file : Option PinFile) (w : Device) → (read_device file w).2.files ≡ w.files
read_files none w = refl
read_files (some file) w = refl

write_files :
    (file : Option PinFile) (text : List ℕ) (w : Device)
    → (write_device file text w).files ≡ w.files
write_files none text w = refl
write_files (some file) text w = refl

abbrev device_files : CountsFiles device
device_files = record {
  files = λ w. w.files;
  open_read = read_opens;
  open_write = open_files;
  read_file = λ fd len w. read_files w.target w;
  write_file = λ fd text w. write_files w.target text w;
  close_file = λ fd w. refl;
}

-- What `IsPin` asks of an answer
abbrev Reaches : PinFile → Device → ℤ × Device → Type 0
Reaches file w (fd, w1) = (ltb_ℤ fd (pos 0) ≡ false) × (w1.target ≡ some file) × (w1.pin ≡ w.pin)

opens_lem : (file : PinFile) (w : Device) → Reaches file w (opens true file w)
opens_lem exports w = (refl, refl, refl)
opens_lem directions w = (refl, refl, refl)
opens_lem edges w = (refl, refl, refl)
opens_lem values w = (refl, refl, refl)

reached :
    (file : PinFile) (w : Device)
    → IsThere file w.pin
    → Reaches file w (open_device (pin_file (pos 17) file) w)
reached exports w there = (refl, refl, refl)
reached directions w there = rw there (refl, refl, refl)
reached edges w (there, has) = rw (has, there) (refl, refl, refl)
reached values w there = rw there (refl, refl, refl)

reached_reading :
    (file : PinFile) (w : Device)
    → IsTold file w.pin
    → Reaches file w (open_to_read (pin_file (pos 17) file) w)
reached_reading exports w told = absurd told
reached_reading directions w told = reached directions w told
reached_reading edges w told = reached edges w told
reached_reading values w (there, out) = reached values w there

edge_absent :
    (w : Device)
    → w.pin.has_edge ≡ false
    → (ltb_ℤ (open_device (edge_file (pos 17)) w).0 (pos 0) ≡ true)
      × ((open_device (edge_file (pos 17)) w).1.pin ≡ w.pin)
edge_absent w h = rw h (refl, refl)

setting_back :
    (setting : Setting) → setting_of (written_to setting) (setting_text (pos 17) setting) ≡ setting
unfolding decimal digits
setting_back exporting = refl
setting_back (direction_to true) = refl
setting_back (direction_to false) = refl
setting_back (edge_to no_edge) = refl
setting_back (edge_to rising) = refl
setting_back (edge_to falling) = refl
setting_back (edge_to both) = refl
setting_back (edge_to edge_butt) = refl
setting_back (value_to true) = refl
setting_back (value_to false) = refl

device_writes :
    (setting : Setting) (fd : ℤ) (w : Device)
    → w.target ≡ some (written_to setting)
    → (write_device w.target (setting_text (pos 17) setting) w).pin ≡ drive setting w.pin
device_writes setting fd w h =
    ap (λ (t : Option PinFile). (write_device t (setting_text (pos 17) setting) w).pin) h
    ∙ ap (λ (s : Setting). drive s w.pin) (setting_back setting)

abbrev TextOf : PinFile → Device → ℤ × List ℕ × Device → Type 0
TextOf file w (len, bytes, w1) =
    let text = pin_text file w.pin ++ (10 ∷ []) in
    (len ≡ pos (length text)) × (bytes ≡ text) × (w1.pin ≡ w.pin)

device_reads :
    (file : PinFile) (w : Device) → w.target ≡ some file → TextOf file w (read_device w.target w)
device_reads file w h =
    subst (λ (t : Option PinFile). TextOf file w (read_device t w)) (sym h) (refl, refl, refl)

not_accessed : (w : Device) → false ≡ true → w.pin.exported ≡ true
not_accessed w h = absurd (ground arith)

abbrev device_laws : IsPin device (pos 17)
device_laws = record {
  state = λ w. w.pin;
  target = λ w fd. w.target;
  accesses = λ mode w h. not_accessed w h;
  opens_write = reached;
  opens_read = reached_reading;
  no_edge_write = edge_absent;
  no_edge_read = edge_absent;
  writes = device_writes;
  reads = λ file fd w h told. device_reads file w h;
  closes = λ fd w. refl;
}

gpio_ctrl_files_example :
    ((gpio_ctrl_set_value device (pos 17) (pos 1) listening).1.files ≡ 3)
    × ((gpio_ctrl_get_value device (pos 17) listening).1.files ≡ 3)
    × ((gpio_ctrl_set_edge device (pos 17) rising listening).1.files ≡ 3)
gpio_ctrl_files_example = gpio_ctrl_files device device_files (pos 17) (pos 1) rising listening
