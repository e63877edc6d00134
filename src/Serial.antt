-- ===== src/Serial.antt =====
-- linux/serial/basic_serial.c: the settings of a serial line. What <termios.h> gives, its constants
-- and its calls, is the argument `tty`; `W` is the state of the devices. A `tcflag_t` is the
-- function that tells whether a bit is set; the messages on the error paths are left out.
pub mod Lines
mod Tests
use general_purpose_library.Prelude.{
  ℕ, Bool, true, false, ◌&&◌, ◌||◌, not, List, [], ◌∷◌, ◌==◌, if◌then◌else◌, ℤ, pos, negsuc, ltb_ℤ,
  eqb_ℤ, to_u64,
}

abbrev pub Flags : Type 0
Flags = ℕ → Bool

-- `flags |= mask` and `flags &= ~mask`
abbrev pub set_flags : Flags → Flags → Flags
set_flags mask flags i = flags i || mask i

abbrev pub clear_flags : Flags → Flags → Flags
clear_flags mask flags i = flags i && not (mask i)

-- struct termios, as far as the routines use it
pub record Termios : Type 0 where
  pub c_iflag : Flags
  pub c_cflag : Flags
  pub input_speed : ℤ
  pub output_speed : ℤ
  pub vtime : ℕ
  pub vmin : ℕ

-- What <termios.h> and the system calls provide; `baud 9600` is `B9600`. A call that returns a
-- status returns it with what its argument or the devices hold afterwards.
pub record Tty {ℓ} (W : Type ℓ) : Type ℓ where
  pub baud : ℕ → ℤ
  pub cs5 : Flags
  pub cs6 : Flags
  pub cs7 : Flags
  pub cs8 : Flags
  pub parenb : Flags
  pub parodd : Flags
  pub inpck : Flags
  pub cstopb : Flags
  pub cfmakeraw : Termios → Termios
  pub cfsetispeed : ℤ → Termios → Termios
  pub cfsetospeed : ℤ → Termios → Termios
  pub tcgetattr : ℤ → W → ℤ × Termios × W
  pub tcsetattr : ℤ → Termios → W → ℤ × W
  pub tcflush_both : ℤ → W → W
  pub tcflush_input : ℤ → W → W
  pub open_device : List ℕ → W → ℤ × W
  pub close_device : ℤ → W → ℤ × W
  pub read_device : ℤ → ℕ → W → ℤ × List ℕ × W
  pub write_device : ℤ → List ℕ → ℕ → W → ℤ × W

-- The speeds of m_map_table, in its order
abbrev pub map_table : List ℕ
map_table =
    115200 ∷ 110 ∷ 134 ∷ 150 ∷ 200 ∷ 300 ∷ 600 ∷ 1200 ∷ 1800 ∷ 2400 ∷ 4800 ∷ 9600 ∷ 19200 ∷ 38400
    ∷ 57600 ∷ 230400 ∷ 460800 ∷ []

abbrev pub is_either : ℕ → ℕ → ℕ → Bool
is_either a b c = (c == a) || (c == b)

module _ {ℓ} {W : Type ℓ} (tty : Tty W) where
  pub find_baudrate : List ℕ → ℤ → ℤ
  find_baudrate [] speed = negsuc 0
  find_baudrate (s ∷ ss) speed = if eqb_ℤ (pos s) speed then tty.baud s else find_baudrate ss speed

  abbrev pub get_baudrate : ℤ → ℤ
  get_baudrate speed = find_baudrate map_table speed

  pub set_data_bits : ℤ → Termios → Termios
  set_data_bits data_bits options = record options {
    c_cflag =
        set_flags
          (if eqb_ℤ data_bits (pos 5)
            then tty.cs5
            else if eqb_ℤ data_bits (pos 6)
            then tty.cs6
            else if eqb_ℤ data_bits (pos 7)
            then tty.cs7
            else tty.cs8)
          options.c_cflag;
  }

  -- `parity` is the code of the letter: o and O, e and E, s and S, and all others like n and N
  pub set_parity : ℕ → Termios → Termios
  set_parity parity options =
      if is_either 111 79 parity
      then record options {
        c_cflag = set_flags tty.parodd (set_flags tty.parenb options.c_cflag);
        c_iflag = set_flags tty.inpck options.c_iflag;
      }
      else if is_either 101 69 parity
      then record options {
        c_cflag = clear_flags tty.parodd (set_flags tty.parenb options.c_cflag);
        c_iflag = set_flags tty.inpck options.c_iflag;
      }
      else if is_either 115 83 parity
      then record options {
        c_cflag = clear_flags tty.cstopb (clear_flags tty.parenb options.c_cflag);
        c_iflag = set_flags tty.inpck options.c_iflag;
      }
      else record options {
        c_cflag = clear_flags tty.parenb options.c_cflag;
        c_iflag = clear_flags tty.inpck options.c_iflag;
      }

  pub set_stop_bits : ℤ → Termios → Termios
  set_stop_bits stop_bits options = record options {
    c_cflag =
        if eqb_ℤ stop_bits (pos 2)
        then set_flags tty.cstopb options.c_cflag
        else clear_flags tty.cstopb options.c_cflag;
  }

  -- What `tcgetattr` returns is not looked at.
  pub serial_set_speed : ℤ → ℤ → W → ℤ × W
  serial_set_speed fd speed w =
      let baudrate = get_baudrate speed in
      if ltb_ℤ baudrate (pos 0)
      then (negsuc 0, w)
      else (let (ret, opt, w1) = tty.tcgetattr fd (tty.tcflush_both fd w) in
          let (status, w2) =
            tty.tcsetattr fd (tty.cfsetospeed baudrate (tty.cfsetispeed baudrate opt)) w1 in
          (if ltb_ℤ status (pos 0) then negsuc 0 else pos 0, w2))

  pub serial_set_databits : ℤ → ℤ → W → ℤ × W
  serial_set_databits fd data_bits w =
      let (ret, options, w1) = tty.tcgetattr fd w in
      if not (eqb_ℤ (pos 0) ret)
      then (negsuc 0, w1)
      else (let (status, w2) =
            tty.tcsetattr fd (set_data_bits data_bits options) (tty.tcflush_input fd w1) in
          (if not (eqb_ℤ (pos 0) status) then negsuc 0 else pos 0, w2))

  -- The settings that serial_set_conf makes of those of the device
  pub conf_options : ℤ → ℤ → ℤ → ℕ → Termios → Termios
  conf_options baudrate data_bits stop_bits parity options =
      let raw = tty.cfsetospeed baudrate (tty.cfsetispeed baudrate (tty.cfmakeraw options)) in
      record (set_parity parity (set_stop_bits stop_bits (set_data_bits data_bits raw))) {
        vtime = 150;
        vmin = 0;
      }

  pub serial_set_conf : ℤ → ℤ → ℤ → ℤ → ℕ → W → ℤ × W
  serial_set_conf fd speed data_bits stop_bits parity w =
      let baudrate = get_baudrate speed in
      if ltb_ℤ baudrate (pos 0)
      then (negsuc 0, w)
      else (let (ret, options, w1) = tty.tcgetattr fd w in
          if not (eqb_ℤ (pos 0) ret)
          then (negsuc 0, w1)
          else (let (status, w2) =
                tty.tcsetattr fd (conf_options baudrate data_bits stop_bits parity options)
                  (tty.tcflush_input fd w1) in
              (if not (eqb_ℤ (pos 0) status) then negsuc 0 else pos 0, w2)))

  pub serial_open : List ℕ → W → ℤ × W
  serial_open dev_name w =
      let (fd, w1) = tty.open_device dev_name w in (if ltb_ℤ fd (pos 0) then negsuc 0 else fd, w1)

  pub serial_close : ℤ → W → ℤ × W
  serial_close fd w = if ltb_ℤ fd (pos 0) then (pos 0, w) else tty.close_device fd w

  -- The answers of read and write become sizes, an error the largest one.
  unfoldable pub serial_read : ℤ → ℕ → W → ℕ × List ℕ × W
  serial_read fd size w = let (n, buf, w1) = tty.read_device fd size w in (to_u64 n, buf, w1)

  unfoldable pub serial_write : ℤ → List ℕ → ℕ → W → ℕ × W
  serial_write fd buf size w = let (n, w1) = tty.write_device fd buf size w in (to_u64 n, w1)
