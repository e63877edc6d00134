-- ===== src/Serial/Lines.antt =====
-- The line that the settings describe, and which calls touch the device.
use general_purpose_library.Prelude.{
  ℕ, ◌≡◌, refl, ◌∙◌, arith, Bool, true, false, ◌&&◌, ◌||◌, not, List, [], ◌∷◌, ◌==◌, if◌then◌else◌,
  ℤ, pos, negsuc, ltb_ℤ, eqb_ℤ, ◌≤ℤ◌,
}
use general_purpose_library.Serial.{
  Flags, Termios, Tty, map_table, is_either, get_baudrate, find_baudrate, set_data_bits,
  set_stop_bits, set_parity, conf_options, serial_set_conf, serial_set_speed,
}

abbrev pub is_odd : ℕ → Bool
is_odd = is_either 111 79

abbrev pub is_even : ℕ → Bool
is_even = is_either 101 69

abbrev pub is_space : ℕ → Bool
is_space = is_either 115 83

-- Two masks have no bit in common.
abbrev pub Apart : Flags → Flags → Type 0
Apart m n = (i : ℕ) → m i ≡ true → n i ≡ false

-- What <termios.h> documents of its masks and calls. The two speed calls write the bits of the
-- speed (CBAUD and CIBAUD of Linux) into c_cflag and leave its other bits.
pub record IsTty {ℓ} {W : Type ℓ} (tty : Tty W) : Type ℓ where
  pub speed_bits : Flags
  pub ispeed_flags :
      (b : ℤ) (o : Termios) (i : ℕ)
      → speed_bits i ≡ false
      → (tty.cfsetispeed b o).c_cflag i ≡ o.c_cflag i
  pub ospeed_flags :
      (b : ℤ) (o : Termios) (i : ℕ)
      → speed_bits i ≡ false
      → (tty.cfsetospeed b o).c_cflag i ≡ o.c_cflag i
  pub size_speed : Apart tty.cs8 speed_bits
  pub raw_size : (o : Termios) (i : ℕ) → tty.cs8 i ≡ true → (tty.cfmakeraw o).c_cflag i ≡ true
  pub size_stop : Apart tty.cs8 tty.cstopb
  pub size_parity : Apart tty.cs8 tty.parenb
  pub size_odd : Apart tty.cs8 tty.parodd
  pub parity_odd : Apart tty.parenb tty.parodd
  pub parity_stop : Apart tty.parenb tty.cstopb
  pub odd_stop : Apart tty.parodd tty.cstopb

Apart-sym : (m n : Flags) → Apart m n → Apart n m
Apart-sym m n apart i h = let a = apart i in ground arith

module _ {ℓ} {W : Type ℓ} (tty : Tty W) (laws : IsTty tty) where
  kept_by_data_bits :
      (n : ℤ) (o : Termios) (i : ℕ) → o.c_cflag i ≡ true → (set_data_bits tty n o).c_cflag i ≡ true
  unfolding set_data_bits
  kept_by_data_bits n o i h = ground arith

  kept_by_stop_bits :
      (n : ℤ) (o : Termios) (i : ℕ)
      → tty.cs8 i ≡ true
      → o.c_cflag i ≡ true
      → (set_stop_bits tty n o).c_cflag i ≡ true
  unfolding set_stop_bits
  kept_by_stop_bits n o i m h = let a = laws.size_stop i m in ground arith

  kept_by_parity :
      (n : ℕ) (o : Termios) (i : ℕ)
      → tty.cs8 i ≡ true
      → o.c_cflag i ≡ true
      → (set_parity tty n o).c_cflag i ≡ true
  unfolding set_parity
  kept_by_parity n o i m h =
      let a = laws.size_stop i m in
      let b = laws.size_parity i m in let c = laws.size_odd i m in ground arith

  -- Where the mask CS8 is apart from those of the speed, the stop bits and parity, the two speed
  -- calls change no bit of c_cflag outside those of the speed and cfmakeraw sets CS8, the settings
  -- that serial_set_conf makes have all the bits of CS8, whatever size is asked for.
  pub conf_options_size :
      (baudrate data_bits stop_bits : ℤ) (parity : ℕ) (options : Termios) (i : ℕ)
      → tty.cs8 i ≡ true
      → (conf_options tty baudrate data_bits stop_bits parity options).c_cflag i ≡ true
  unfolding conf_options
  conf_options_size baudrate data_bits stop_bits parity options i m =
      let made = tty.cfmakeraw options in
      let slow = tty.cfsetispeed baudrate made in
      let raw = tty.cfsetospeed baudrate slow in
      let apart = laws.size_speed i m in
      let size : raw.c_cflag i ≡ true =
        laws.ospeed_flags baudrate slow i apart
        ∙ laws.ispeed_flags baudrate made i apart
        ∙ laws.raw_size options i m in
      let sized = set_data_bits tty data_bits raw in
      kept_by_parity parity (set_stop_bits tty stop_bits sized) i m
        (kept_by_stop_bits stop_bits sized i m (kept_by_data_bits data_bits raw i size))

  -- Where the masks of parity and stop bits are apart, the settings that serial_set_conf makes
  -- have parity checking for the letters of odd and even parity and no others, with the bit of odd
  -- parity set for the first and clear for the second.
  pub conf_options_parity :
      (baudrate data_bits stop_bits : ℤ) (parity : ℕ) (options : Termios) (i j : ℕ)
      → tty.parenb i ≡ true
      → tty.parodd j ≡ true
      → let made = conf_options tty baudrate data_bits stop_bits parity options in
        (made.c_cflag i ≡ (is_odd parity || is_even parity))
        × ((is_odd parity || is_even parity) && made.c_cflag j ≡ is_odd parity)
  unfolding conf_options set_parity
  conf_options_parity baudrate data_bits stop_bits parity options i j m n =
      let a = laws.parity_odd i m in
      let b = laws.parity_stop i m in let c = laws.odd_stop j n in ground arith

  -- Where the masks of parity and stop bits are apart, the settings that serial_set_conf makes ask
  -- for two stop bits exactly if the caller does and the letter is not one of those for space
  -- parity, which clear the bit again.
  pub conf_options_stop :
      (baudrate data_bits stop_bits : ℤ) (parity : ℕ) (options : Termios) (i : ℕ)
      → tty.cstopb i ≡ true
      → (conf_options tty baudrate data_bits stop_bits parity options).c_cflag i
        ≡ (eqb_ℤ stop_bits (pos 2) && not (is_space parity))
  unfolding conf_options set_parity set_stop_bits
  conf_options_stop baudrate data_bits stop_bits parity options i m =
      let a = Apart-sym tty.parenb tty.cstopb laws.parity_stop i m in
      let b = Apart-sym tty.parodd tty.cstopb laws.odd_stop i m in ground arith

abbrev pub mem : ℕ → List ℕ → Bool
mem n [] = false
mem n (s ∷ ss) = if s == n then true else mem n ss

module _ {ℓ} {W : Type ℓ} (tty : Tty W) where
  find_baudrate_lem :
      (table : List ℕ) (n : ℕ)
      → find_baudrate tty table (pos n) ≡ (if mem n table then tty.baud n else negsuc 0)
  unfolding find_baudrate
  find_baudrate_lem [] n = refl
  find_baudrate_lem (s ∷ ss) n = let rest = find_baudrate_lem ss n in ground arith

  find_baudrate_negative : (table : List ℕ) (n : ℕ) → find_baudrate tty table (negsuc n) ≡ negsuc 0
  unfolding find_baudrate
  find_baudrate_negative [] n = refl
  find_baudrate_negative (s ∷ ss) n = let rest = find_baudrate_negative ss n in ground arith

  -- A speed that the table does not list is refused by serial_set_speed and serial_set_conf, with
  -- no call of the device.
  pub unsupported_speed :
      (fd data_bits stop_bits : ℤ) (n parity : ℕ) (w : W)
      → mem n map_table ≡ false
      → (serial_set_speed tty fd (pos n) w ≡ (negsuc 0, w))
        × (serial_set_conf tty fd (pos n) data_bits stop_bits parity w ≡ (negsuc 0, w))
  unfolding serial_set_speed serial_set_conf
  unsupported_speed fd data_bits stop_bits n parity w h =
      let missing : get_baudrate tty (pos n) ≡ negsuc 0 =
        find_baudrate_lem map_table n ∙ (rw h refl) in
      rw missing (refl, refl)

  -- Where the device can be read and set, serial_set_conf with a speed of the table whose constant
  -- is not negative answers 0 and leaves the device as tcsetattr does with the settings for that
  -- constant.
  pub serial_set_conf_succeeds :
      (fd data_bits stop_bits : ℤ) (n parity : ℕ) (w w1 w2 : W) (options : Termios)
      → mem n map_table ≡ true
      → pos 0 ≤ℤ tty.baud n
      → tty.tcgetattr fd w ≡ (pos 0, options, w1)
      → tty.tcsetattr fd
          (conf_options tty (tty.baud n) data_bits stop_bits parity options)
          (tty.tcflush_input fd w1)
        ≡ (pos 0, w2)
      → serial_set_conf tty fd (pos n) data_bits stop_bits parity w ≡ (pos 0, w2)
  unfolding serial_set_conf
  serial_set_conf_succeeds fd data_bits stop_bits n parity w w1 w2 options h valid read write =
      let found : get_baudrate tty (pos n) ≡ tty.baud n =
        find_baudrate_lem map_table n ∙ (rw h refl) in
      let test : ltb_ℤ (tty.baud n) (pos 0) ≡ false = ground arith in
      rw (found, test, read, write) refl
