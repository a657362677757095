-- ===== src/Gid.antt =====
-- gid.c and gid.h: the Generic Interrupt Distributor of the Cortex-A9. `periph` is the variable
-- `periph_base` of gid.c.
pub mod Bits
pub mod Fill
pub mod Init
mod Tests
use osa_kernel_arm_boot_step.Prelude.{
  ℕ, zero, suc, ◌+◌, ◌*◌, ◌/◌, ◌%◌, ◌^◌, ltb, if◌then◌else◌, none,
}
use osa_kernel_arm_boot_step.Mmio.{
  Device, Io, pure, ◌>>=◌, ◌>>◌, arm_mmio_write8, arm_mmio_write32, arm_mmio_read8, arm_mmio_read32,
}

abbrev pub arm_gid_base_offset : ℕ
arm_gid_base_offset = 0x01000

abbrev pub cortex_a9_nirqs : ℕ
cortex_a9_nirqs = 96

-- The registers' offsets.
abbrev pub icddcr : ℕ
icddcr = 0x000

abbrev pub icdiidr : ℕ
icdiidr = 0x008

abbrev pub icdiser : ℕ
icdiser = 0x100

abbrev pub icdicer : ℕ
icdicer = 0x180

abbrev pub icdicpr : ℕ
icdicpr = 0x280

abbrev pub icactiver : ℕ
icactiver = 0x380

abbrev pub icdipr : ℕ
icdipr = 0x400

abbrev pub icdiptr : ℕ
icdiptr = 0x800

abbrev pub icdicfr : ℕ
icdicfr = 0xC00

abbrev pub icdsgir : ℕ
icdsgir = 0xF00

-- `ARM_GID_IRQ_OFF`, `ARM_GID_IRQ_VAL` and their byte forms
abbrev pub irq_off : ℕ → ℕ
irq_off irq = irq / 2 ^ 5 * 2 ^ 2

abbrev pub irq_val : ℕ → ℕ
irq_val irq = 2 ^ (irq % 32)

abbrev pub irq_off8 : ℕ → ℕ
irq_off8 irq = irq / 2 ^ 3

abbrev pub irq_val8 : ℕ → ℕ
irq_val8 irq = 2 ^ (irq % 8)

module _ (periph : ℕ) where
  abbrev pub gid_base : ℕ
  gid_base = (periph + arm_gid_base_offset) % 2 ^ 32

  abbrev pub gid_write_reg : (off val : ℕ) → Io (Unit {0})
  gid_write_reg off val = arm_mmio_write32 gid_base off val

  abbrev pub gid_write_reg8 : (off val : ℕ) → Io (Unit {0})
  gid_write_reg8 off val = arm_mmio_write8 gid_base off val

  -- `bits & ARM_GID_IRQ_VAL8(irq)`: the one bit, at its place
  pub cortex_a9_gid_enabled_irq : Device → ℕ → Io ℕ
  cortex_a9_gid_enabled_irq dev irq = do
    bits ← arm_mmio_read8 dev gid_base (icdiser + irq_off8 irq)
    pure (bits / irq_val8 irq % 2 * irq_val8 irq)

  unfoldable pub cortex_a9_gid_enable_irq : ℕ → Io (Unit {0})
  cortex_a9_gid_enable_irq irq = gid_write_reg8 (icdiser + irq_off8 irq) (irq_val8 irq)

  pub cortex_a9_gid_disable_irq : ℕ → Io (Unit {0})
  cortex_a9_gid_disable_irq irq = gid_write_reg (icdicer + irq_off irq) (irq_val irq)

  -- Bits 3:0 are the interrupt and bits 23:16 the targets; the two fields do not overlap, and the
  -- filter is 0.
  pub cortex_a9_gid_soft_irq : (targets sgi_id : ℕ) → Io (Unit {0})
  cortex_a9_gid_soft_irq targets sgi_id =
      gid_write_reg icdsgir (sgi_id % 2 ^ 4 + targets % 2 ^ 8 * 2 ^ 16)

  -- `while (irqno < CORTEX_A9_NIRQS) { gid_write_reg8(reg + offset, val); irqno += step; offset++; }`
  pub fill : ℕ → (reg val step irqno offset : ℕ) → Io (Unit {0})
  fill zero reg val step irqno offset h = none
  fill (suc fuel) reg val step irqno offset h =
      let round =
        (do gid_write_reg8 (reg + offset) val; fill fuel reg val step (irqno + step) (offset + 1))
          h in
      if ltb irqno cortex_a9_nirqs then round else pure tt h

  -- The loop that clears the active and the pending interrupts writes two registers in a round.
  pub fill_two : ℕ → (irqno offset : ℕ) → Io (Unit {0})
  fill_two zero irqno offset h = none
  fill_two (suc fuel) irqno offset h =
      let round =
        (do
          gid_write_reg8 (icactiver + offset) 0xFF
          gid_write_reg8 (icdicpr + offset) 0xFF
          fill_two fuel (irqno + 8) (offset + 1))
          h in
      if ltb irqno cortex_a9_nirqs then round else pure tt h

  -- Without VERBOSE, the fields of the identification are read and dropped.
  pub cortex_a9_check_identification : Device → Io ℕ
  cortex_a9_check_identification dev = arm_mmio_read32 dev gid_base icdiidr

  -- Each loop gets a round for each interrupt, and one more.
  pub cortex_a9_gid_init : Device → Io (Unit {0})
  unfolding cortex_a9_check_identification
  cortex_a9_gid_init dev = do
    _ ← cortex_a9_check_identification dev
    gid_write_reg icddcr 0
    gid_write_reg icdicfr 0xAAAA_AAAA
    gid_write_reg (icdicfr + 4) 0x7DC0_0000
    fill 97 icdicfr 0x55 4 32 8
    fill 97 icdipr 0x88 1 0 0
    fill 97 icdiptr 0x01 1 32 32
    fill 97 icdicer 0xFF 8 0 0
    fill_two 97 0 0
    gid_write_reg icddcr 3
