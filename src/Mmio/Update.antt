-- ===== src/Mmio/Update.antt =====
-- board.h: the functions that set and clear bits of a register, and the bit macros of 8 and 16 bits.
-- The macros `arm_mmio_clearsetbits8` and its 16-bit form pass four arguments to a function of three,
-- so a call of them does not compile; the functions behind them are here.
use Prim.Native.Nat.{bit_and, bit_or}
use osa_kernel_arm_boot_step.Prelude.{ℕ, ◌-◌, ◌/◌, ◌%◌, ◌^◌}
use osa_kernel_arm_boot_step.Mmio.{Device, Io, ◌>>=◌, arm_mmio_read, arm_mmio_write}

abbrev pub arm_mmio_write16 : (base off value : ℕ) → Io (Unit {0})
arm_mmio_write16 = arm_mmio_write 16

-- `~bits`, as far as it stays in `w` bits
abbrev pub complement : (w bits : ℕ) → ℕ
complement w bits = 2 ^ w - 1 - bits % 2 ^ w

module _ (dev : Device) where
  abbrev pub arm_mmio_read16 : (base off : ℕ) → Io ℕ
  arm_mmio_read16 = arm_mmio_read dev 16

  -- `val = read(base,off); val |= bits; write(base,off,val);`
  unfoldable pub arm_mmio_setbits : (w base off bits : ℕ) → Io (Unit {0})
  arm_mmio_setbits w base off bits = do
    val ← arm_mmio_read dev w base off
    arm_mmio_write w base off (bit_or val (bits % 2 ^ w))

  abbrev pub arm_mmio_setbits8 : (base off bits : ℕ) → Io (Unit {0})
  arm_mmio_setbits8 = arm_mmio_setbits 8

  abbrev pub arm_mmio_setbits16 : (base off bits : ℕ) → Io (Unit {0})
  arm_mmio_setbits16 = arm_mmio_setbits 16

  abbrev pub arm_mmio_setbits32 : (base off bits : ℕ) → Io (Unit {0})
  arm_mmio_setbits32 = arm_mmio_setbits 32

  -- `val &= ~bits;`
  unfoldable pub arm_mmio_clearbits : (w base off bits : ℕ) → Io (Unit {0})
  arm_mmio_clearbits w base off bits = do
    val ← arm_mmio_read dev w base off
    arm_mmio_write w base off (bit_and val (complement w bits))

  abbrev pub arm_mmio_clearbits8 : (base off bits : ℕ) → Io (Unit {0})
  arm_mmio_clearbits8 = arm_mmio_clearbits 8

  abbrev pub arm_mmio_clearbits16 : (base off bits : ℕ) → Io (Unit {0})
  arm_mmio_clearbits16 = arm_mmio_clearbits 16

  abbrev pub arm_mmio_clearbits32 : (base off bits : ℕ) → Io (Unit {0})
  arm_mmio_clearbits32 = arm_mmio_clearbits 32

  -- `val &= mask; val |= bits;`
  unfoldable pub arm_mmio_clearsetbits : (w base off mask bits : ℕ) → Io (Unit {0})
  arm_mmio_clearsetbits w base off mask bits = do
    val ← arm_mmio_read dev w base off
    arm_mmio_write w base off (bit_or (bit_and val (mask % 2 ^ w)) (bits % 2 ^ w))

  -- `_arm_mmio_clearsetbits8` and `_arm_mmio_clearsetbits16`, which no macro calls
  abbrev pub arm_mmio_clearsetbits8 : (base off mask bits : ℕ) → Io (Unit {0})
  arm_mmio_clearsetbits8 = arm_mmio_clearsetbits 8

  abbrev pub arm_mmio_clearsetbits16 : (base off mask bits : ℕ) → Io (Unit {0})
  arm_mmio_clearsetbits16 = arm_mmio_clearsetbits 16

  abbrev pub arm_mmio_clearsetbits32 : (base off mask bits : ℕ) → Io (Unit {0})
  arm_mmio_clearsetbits32 = arm_mmio_clearsetbits 32

-- `getBit8` and `getBit16`
abbrev pub get_bit8 : (value index : ℕ) → ℕ
get_bit8 value index = value % 2 ^ 8 / 2 ^ index % 2

abbrev pub get_bit16 : (value index : ℕ) → ℕ
get_bit16 value index = value % 2 ^ 16 / 2 ^ index % 2

-- `setBit8` and `setBit16`; the bit is one of an `int`.
abbrev pub set_bit8 : (value index : ℕ) → ℕ
set_bit8 value index = bit_or (value % 2 ^ 8) (2 ^ index)

abbrev pub set_bit16 : (value index : ℕ) → ℕ
set_bit16 value index = bit_or (value % 2 ^ 16) (2 ^ index)

-- `clearBit8`, `clearBit16` and `clearBit32`
abbrev pub clear_bit8 : (value index : ℕ) → ℕ
clear_bit8 value index = bit_and (value % 2 ^ 8) (complement 32 (2 ^ index))

abbrev pub clear_bit16 : (value index : ℕ) → ℕ
clear_bit16 value index = bit_and (value % 2 ^ 16) (complement 32 (2 ^ index))

abbrev pub clear_bit32 : (value index : ℕ) → ℕ
clear_bit32 value index = bit_and (value % 2 ^ 32) (complement 32 (2 ^ index))
