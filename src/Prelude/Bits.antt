-- ===== src/Prelude/Bits.antt =====
-- Exclusive or on binary digits at every width: what the CRC routines compute with.
mod Digits
mod Fields
pub use Digits.*
pub use Fields.*
pub use Prim.Native.Nat.{bit_xor, bit_and, bit_or}
