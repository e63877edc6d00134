-- ===== src/I2c/Registers.antt =====
-- linux/utils/src/i2c_ctrl.c on a device that keeps a value for each register.
use mathlib.Core.Path.{subst}
use mathlib.Core.List.{head-eq_of_cons-eq, tail-eq_of_cons-eq}
use general_purpose_library.Prelude.{
  ℕ, ◌^◌, ◌<◌, ◌≡◌, ◌≢◌, refl, ◌∙◌, arith, Bool, true, false, Option, none, some, List, ◌++◌, ℤ,
  pos, ltb_ℤ, length, ltb, take,
}
use general_purpose_library.I2c.{
  Ctrl, Bus, bytes_of, number_of, in_buffer, answered, to_u16, i2c_read, i2c_write,
}

-- The widths that the routines know: one byte or two
abbrev pub width_of : Bool → ℕ
width_of false = 1
width_of true = 2

module _ {ℓ} {W : Type ℓ} (bus : Bus W) (ctrl : Ctrl) where
  -- A device that takes the bytes of a register and a value in one message, and answers with the
  -- value where a message of a register is followed by one that is read
  pub record IsDevice : Type ℓ where
    pub registers : W → List ℕ → List ℕ
    pub slave : W → ℕ
    pub writes :
        (reg value : List ℕ) (w : W)
        → slave w ≡ ctrl.dev_addr
        → length reg ≡ ctrl.reg_width
        → length value ≡ ctrl.data_width
        → let (ret, w1) = bus.write_bytes ctrl.priv (reg ++ value) w in
          (ltb_ℤ ret (pos 0) ≡ false)
          × (registers w1 reg ≡ value)
          × ((other : List ℕ) → other ≢ reg → registers w1 other ≡ registers w other)
    pub reads :
        (reg : List ℕ) (w : W)
        → length reg ≡ ctrl.reg_width
        → let (ret, bytes, w1) = bus.ioctl_rdwr ctrl.priv ctrl.dev_addr reg ctrl.data_width w in
          (ret ≡ pos 2) × (bytes ≡ registers w reg)

length-bytes_of : (wide : Bool) (n : ℕ) → length (bytes_of (width_of wide) n) ≡ width_of wide
length-bytes_of true n = refl
length-bytes_of false n = refl

number_of-bytes_of :
    (wide : Bool) (n : ℕ) (rest : List ℕ)
    → n < 256 ^ width_of wide
    → number_of (width_of wide) (bytes_of (width_of wide) n ++ rest) ≡ n
number_of-bytes_of true n rest h = omega arith
number_of-bytes_of false n rest h = omega arith

bytes_of_injective :
    (wide : Bool) (m n : ℕ)
    → m < 256 ^ width_of wide
    → n < 256 ^ width_of wide
    → bytes_of (width_of wide) m ≡ bytes_of (width_of wide) n
    → m ≡ n
bytes_of_injective false m n hm hn e = let a = head-eq_of_cons-eq e in omega arith
bytes_of_injective true m n hm hn e =
    let a = head-eq_of_cons-eq e in let b = head-eq_of_cons-eq (tail-eq_of_cons-eq e) in omega arith

fits_buffer : (k : ℕ) (wide : Bool) → k ≡ width_of wide → ltb 4 (to_u16 k) ≡ false
fits_buffer k true e = rw e refl
fits_buffer k false e = rw e refl

to_u16_lem : (k : ℕ) (wide : Bool) → k ≡ width_of wide → to_u16 k ≡ k
to_u16_lem k true e = rw e refl
to_u16_lem k false e = rw e refl

sent_lem :
    (k : ℕ) (wide : Bool) (n : ℕ)
    → k ≡ width_of wide
    → take (to_u16 k) (in_buffer (bytes_of k n)) ≡ bytes_of k n
sent_lem k true n e = rw e refl
sent_lem k false n e = rw e refl

length-bytes_of_width :
    (k : ℕ) (wide : Bool) (n : ℕ) → k ≡ width_of wide → length (bytes_of k n) ≡ k
length-bytes_of_width k true n e = rw e refl
length-bytes_of_width k false n e = rw e refl

module _ {ℓ} {W : Type ℓ} (bus : Bus W) (ctrl : Ctrl) (laws : IsDevice bus ctrl)
    (wide_reg wide_value : Bool) (reg_is : ctrl.reg_width ≡ width_of wide_reg)
    (value_is : ctrl.data_width ≡ width_of wide_value) where
  -- An answer of i2c_read that is a value
  abbrev pub Reads : ℕ → Option (ℤ × ℕ × W) → Type 0
  Reads n none = ⊥
  Reads n (some (ret, value, w)) = (ret ≡ pos 0) × (value ≡ n)

  answered_lem :
      (buf : List ℕ) (old value : ℕ) (a : ℤ × List ℕ × W)
      → a.0 ≡ pos 2
      → a.1 ≡ bytes_of ctrl.data_width value
      → value < 256 ^ width_of wide_value
      → Reads value (some (answered bus ctrl buf old a))
  answered_lem buf old value (ret, bytes, w) two same small =
      rw (two, same, value_is) (refl, number_of-bytes_of wide_value value _ small)

  read_held :
      (reg old value : ℕ) (w : W)
      → value < 256 ^ width_of wide_value
      → laws.registers w (bytes_of ctrl.reg_width reg) ≡ bytes_of ctrl.data_width value
      → Reads value (i2c_read bus (some ctrl) reg old w)
  unfolding i2c_read
  read_held reg old value w small held =
      let (two, same) =
        laws.reads (bytes_of ctrl.reg_width reg) w
          (length-bytes_of_width ctrl.reg_width wide_reg reg reg_is) in
      rw
        (
          fits_buffer ctrl.reg_width wide_reg reg_is,
          fits_buffer ctrl.data_width wide_value value_is,
          sent_lem ctrl.reg_width wide_reg reg reg_is,
          to_u16_lem ctrl.data_width wide_value value_is,
        )
        (answered_lem _ old value _ two (same ∙ held) small)

  -- On a device that keeps a value for each register and whose address is selected, with registers
  -- and values of one or two bytes, i2c_write answers 0, i2c_read of that register then answers
  -- the value that was written, and i2c_read of any other register answers the value that it held
  -- before.
  pub i2c_read-i2c_write :
      (reg value old other kept : ℕ) (w : W)
      → laws.slave w ≡ ctrl.dev_addr
      → reg < 256 ^ width_of wide_reg
      → value < 256 ^ width_of wide_value
      → other < 256 ^ width_of wide_reg
      → kept < 256 ^ width_of wide_value
      → laws.registers w (bytes_of ctrl.reg_width other) ≡ bytes_of ctrl.data_width kept
      → other ≢ reg
      → let (ret, w1) = i2c_write bus (some ctrl) reg value w in
        (ret ≡ pos 0)
        × Reads value (i2c_read bus (some ctrl) reg old w1)
        × Reads kept (i2c_read bus (some ctrl) other old w1)
  unfolding i2c_write
  i2c_read-i2c_write reg value old other kept w slave reg_small value_small other_small kept_small
        held ne =
      let reg_bytes = bytes_of ctrl.reg_width reg in
      let value_bytes = bytes_of ctrl.data_width value in
      let (good, put, rest) =
        laws.writes reg_bytes value_bytes w slave
          (length-bytes_of_width ctrl.reg_width wide_reg reg reg_is)
          (length-bytes_of_width ctrl.data_width wide_value value value_is) in
      let w1 = (bus.write_bytes ctrl.priv (reg_bytes ++ value_bytes) w).1 in
      (
        rw good refl,
        read_held reg old value w1 value_small put,
        read_held other old kept w1 kept_small
            (rest (bytes_of ctrl.reg_width other) (λ e. ne (same_register e)) ∙ held),
      )
    where
      same_register : bytes_of ctrl.reg_width other ≡ bytes_of ctrl.reg_width reg → other ≡ reg
      same_register e =
          bytes_of_injective wide_reg other reg other_small reg_small
            (subst (λ (k : ℕ). bytes_of k other ≡ bytes_of k reg) reg_is e)
