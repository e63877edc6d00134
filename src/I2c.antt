-- ===== src/I2c.antt =====
-- linux/utils/src/i2c_ctrl.c: registers of a device on an I2C bus. The calls of the system are the
-- fields of `Bus`, over a state `W`. Addresses and values are unsigned ints, and `none` is a write or
-- a read outside a buffer.
pub mod Registers
mod Tests
use general_purpose_library.Prelude.{
  ◌>>=◌, ℕ, suc, ◌+◌, ◌*◌, ◌/◌, ◌%◌, ◌^◌, Bool, true, false, ◌||◌, Option, none, some, List, [],
  ◌∷◌, ◌++◌, ◌==◌, ltb, if◌then◌else◌, ℤ, pos, negsuc, ltb_ℤ, eqb_ℤ, length, take, drop, get_or,
}
use general_purpose_library.Decimal.{decimal}

-- i2c_ctrl_t; `priv` is the descriptor.
pub record Ctrl : Type 0 where
  pub i2c_num : ℕ
  pub dev_addr : ℕ
  pub reg_width : ℕ
  pub data_width : ℕ
  pub priv : ℤ

-- I2C_SLAVE_FORCE; I2C_RDWR with a message that is written and one that is read, both for the same
-- address; write and close.
pub record Bus {ℓ} (W : Type ℓ) : Type ℓ where
  pub open_device : List ℕ → W → ℤ × W
  pub ioctl_slave : ℤ → ℕ → W → ℤ × W
  pub ioctl_rdwr : ℤ → ℕ → List ℕ → ℕ → W → ℤ × List ℕ × W
  pub write_bytes : ℤ → List ℕ → W → ℤ × W
  pub close_device : ℤ → W → ℤ × W

-- "/dev/i2c-"
abbrev pub device_prefix : List ℕ
device_prefix = 47 ∷ 100 ∷ 101 ∷ 118 ∷ 47 ∷ 105 ∷ 50 ∷ 99 ∷ 45 ∷ []

unfoldable pub i2c_init_ctrl : Option Ctrl → ℕ → ℕ → ℕ → ℕ → ℤ × Option Ctrl
i2c_init_ctrl none i2c_num dev_addr reg_width data_width = (negsuc 0, none)
i2c_init_ctrl (some ctrl) i2c_num dev_addr reg_width data_width = (
  pos 0,
  some (record ctrl {
    i2c_num = i2c_num;
    dev_addr = dev_addr / 2;
    reg_width = reg_width;
    data_width = data_width;
  }),
)

-- The bytes of a number as it is sent, highest first
abbrev pub bytes_of : ℕ → ℕ → List ℕ
bytes_of width n = if width == 2 then (n / 256 % 256) ∷ (n % 256) ∷ [] else (n % 256) ∷ []

-- `buf[1] | (buf[0] << 8)`, whose operands have no digit in common, or `buf[0]`
abbrev pub number_of : ℕ → List ℕ → ℕ
number_of width buf = if width == 2 then get_or buf 0 0 * 256 + get_or buf 1 0 else get_or buf 0 0

-- `unsigned char buf[4] = {0}` with the bytes at its start
abbrev pub in_buffer : List ℕ → List ℕ
in_buffer bytes = bytes ++ drop (length bytes) (0 ∷ 0 ∷ 0 ∷ 0 ∷ [])

-- The length of a message is a __u16.
abbrev pub to_u16 : ℕ → ℕ
to_u16 n = n % 2 ^ 16

module _ {ℓ} {W : Type ℓ} (bus : Bus W) where
  abbrev pub changed : Ctrl → ℕ → ℤ × W → ℤ × Option Ctrl × W
  changed ctrl dev_addr (ret, w) =
      if ltb_ℤ ret (pos 0)
      then (negsuc 0, some ctrl, w)
      else (ret, some (record ctrl { dev_addr = dev_addr / 2 }), w)

  unfoldable pub i2c_change_dev_addr : Option Ctrl → ℕ → W → ℤ × Option Ctrl × W
  i2c_change_dev_addr none dev_addr w = (negsuc 0, none, w)
  i2c_change_dev_addr (some ctrl) dev_addr w =
      changed ctrl dev_addr (bus.ioctl_slave ctrl.priv (dev_addr / 2) w)

  abbrev pub selected : Ctrl → ℤ → ℤ × W → ℤ × Option Ctrl × W
  selected ctrl fd (ret, w) =
      if ltb_ℤ ret (pos 0)
      then (negsuc 0, some ctrl, (bus.close_device fd w).1)
      else (ret, some (record ctrl { priv = fd }), w)

  abbrev pub opened : Ctrl → ℤ × W → ℤ × Option Ctrl × W
  opened ctrl (fd, w) =
      if ltb_ℤ fd (pos 0)
      then (negsuc 0, some ctrl, w)
      else selected ctrl fd (bus.ioctl_slave fd ctrl.dev_addr w)

  -- The name has 16 bytes with its terminator.
  pub i2c_open : Option Ctrl → W → Option (ℤ × Option Ctrl × W)
  i2c_open none w = some (negsuc 0, none, w)
  i2c_open (some ctrl) w =
      let name = device_prefix ++ decimal (pos ctrl.i2c_num) in
      if ltb (length name) 16 then some (opened ctrl (bus.open_device name w)) else none

  unfoldable pub i2c_close : Option Ctrl → W → ℤ × W
  i2c_close none w = (negsuc 0, w)
  i2c_close (some ctrl) w = bus.close_device ctrl.priv w

  abbrev pub answered : Ctrl → List ℕ → ℕ → ℤ × List ℕ × W → ℤ × ℕ × W
  answered ctrl buf value (ret, bytes, w) =
      if eqb_ℤ ret (pos 2)
      then (pos 0, number_of ctrl.data_width (bytes ++ drop (length bytes) buf), w)
      else (negsuc 0, value, w)

  -- What is stored through the last argument, which held `value` before
  pub i2c_read : Option Ctrl → ℕ → ℕ → W → Option (ℤ × ℕ × W)
  i2c_read none reg_addr value w = some (negsuc 0, value, w)
  i2c_read (some ctrl) reg_addr value w =
      let buf = in_buffer (bytes_of ctrl.reg_width reg_addr) in
      if ltb 4 (to_u16 ctrl.reg_width) || ltb 4 (to_u16 ctrl.data_width)
      then none
      else some (
          answered ctrl buf value (
            bus.ioctl_rdwr ctrl.priv ctrl.dev_addr (take (to_u16 ctrl.reg_width) buf)
              (to_u16 ctrl.data_width) w))

  abbrev pub written : ℤ × W → ℤ × W
  written (ret, w) = (if ltb_ℤ ret (pos 0) then negsuc 0 else pos 0, w)

  pub i2c_write : Option Ctrl → ℕ → ℕ → W → ℤ × W
  i2c_write none reg_addr value w = (negsuc 0, w)
  i2c_write (some ctrl) reg_addr value w = written (
      bus.write_bytes ctrl.priv (bytes_of ctrl.reg_width reg_addr ++ bytes_of ctrl.data_width value)
        w)
