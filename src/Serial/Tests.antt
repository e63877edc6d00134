-- ===== src/Serial/Tests.antt =====
-- A device that holds its settings, with the masks of Linux, and the theorems on it.
use general_purpose_library.Prelude.{
  ℕ, ◌-◌, ◌/◌, ◌%◌, ◌^◌, ◌≡◌, refl, arith, true, false, ◌==◌, ◌||◌, if◌then◌else◌, leb, [], ℤ, pos,
  negsuc, to_u64,
}
use general_purpose_library.Serial.{
  Flags, Termios, Tty, conf_options, set_flags, clear_flags, serial_set_databits, serial_read,
  set_data_bits,
}
use general_purpose_library.Serial.Lines.{IsTty, conf_options_size}

abbrev bit : ℕ → Flags
bit n i = i == n

abbrev no_bit : Flags
no_bit i = false

-- CBAUD: bits 0 to 3 and bit 12
abbrev cbaud : Flags
cbaud i = leb i 3 || i == 12

-- The bits of a speed constant in CBAUD, and the others as they were
abbrev with_speed : ℤ → Flags → Flags
with_speed b flags i = if cbaud i then (to_u64 b / 2 ^ i) % 2 == 1 else flags i

-- B9600, B19200 and B57600 of <asm/termbits.h>, the last for all other speeds
abbrev speed_number : ℕ → ℤ
speed_number n = if n == 9600 then pos 13 else if n == 19200 then pos 14 else pos 4097

abbrev tty : Tty Termios
tty = record {
  baud = speed_number;
  cs5 = no_bit;
  cs6 = bit 4;
  cs7 = bit 5;
  cs8 = set_flags (bit 4) (bit 5);
  parenb = bit 8;
  parodd = bit 9;
  inpck = bit 4;
  cstopb = bit 6;
  cfmakeraw = λ o. record o {
    c_cflag = set_flags (bit 5) (set_flags (bit 4) (clear_flags (bit 8) o.c_cflag));
    c_iflag = no_bit;
  };
  cfsetispeed = λ b o. record o { c_cflag = with_speed b o.c_cflag; input_speed = b };
  cfsetospeed = λ b o. record o { c_cflag = with_speed b o.c_cflag; output_speed = b };
  tcgetattr = λ fd w. (pos 0, w, w);
  tcsetattr = λ fd o w. (pos 0, o);
  tcflush_both = λ fd w. w;
  tcflush_input = λ fd w. w;
  open_device = λ name w. (pos 3, w);
  close_device = λ fd w. (pos 0, w);
  read_device = λ fd size w. (negsuc 0, [], w);
  write_device = λ fd buf size w. (pos size, w);
}

abbrev settings : Termios
settings = record {
  c_iflag = no_bit;
  c_cflag = no_bit;
  input_speed = pos 13;
  output_speed = pos 13;
  vtime = 0;
  vmin = 1;
}

tty-IsTty : IsTty tty
tty-IsTty = record {
  speed_bits = cbaud;
  ispeed_flags = λ b o i h. rw h refl;
  ospeed_flags = λ b o i h. rw h refl;
  size_speed = λ i h. ground arith;
  raw_size = λ o i h. ground arith;
  size_stop = λ i h. ground arith;
  size_parity = λ i h. ground arith;
  size_odd = λ i h. ground arith;
  parity_odd = λ i h. ground arith;
  parity_stop = λ i h. ground arith;
  odd_stop = λ i h. ground arith;
}

seven_bits : (serial_set_databits tty (pos 3) (pos 7) settings).1.c_cflag 5 ≡ true
unfolding serial_set_databits set_data_bits
seven_bits = refl

conf_options_size_example :
    (conf_options tty (pos 13) (pos 7) (pos 1) 101 settings).c_cflag 4 ≡ true
conf_options_size_example =
    conf_options_size tty tty-IsTty (pos 13) (pos 7) (pos 1) 101 settings 4 refl

-- A read that fails
failed_read : serial_read tty (pos 3) 8 settings ≡ (2 ^ 64 - 1, [], settings)
unfolding serial_read to_u64
failed_read = refl
