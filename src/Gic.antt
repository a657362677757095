-- ===== src/Gic.antt =====
-- gic.c and gic.h: the CPU interface of the Generic Interrupt Controller of the Cortex-A9. `periph`
-- is the variable `periph_base` of gic.c.
mod Tests
use osa_kernel_arm_boot_step.Prelude.{
  ℕ, ◌+◌, ◌*◌, ◌/◌, ◌%◌, ◌^◌, ◌≡◌, arith, Bool, ◌||◌, Option, some, ◌∷◌, ◌==◌,
}
use osa_kernel_arm_boot_step.Mmio.{
  Device, History, Io, read, write, at, pure, ◌>>=◌, ◌>>◌, arm_mmio_write32, arm_mmio_read32,
  written,
}

abbrev pub arm_gic_base_offset : ℕ
arm_gic_base_offset = 0x00100

abbrev pub ctlr : ℕ
ctlr = 0x0000

abbrev pub pmr : ℕ
pmr = 0x0004

abbrev pub iar : ℕ
iar = 0x000C

abbrev pub eoir : ℕ
eoir = 0x0010

abbrev pub iidr : ℕ
iidr = 0x00FC

-- `ARM_GIC_IAR_SPURIOUS(irq)`
abbrev pub is_spurious : ℕ → Bool
is_spurious irq = (irq == 0x3FE) || (irq == 0x3FF)

-- The fields that ARM_GIC_ACK_INTID_MASK and ARM_GIC_CPUID_MASK select.
abbrev pub ack_intid : ℕ → ℕ
ack_intid val = val % 2 ^ 10

abbrev pub ack_cpuid : ℕ → ℕ
ack_cpuid val = val / 2 ^ 10 % 2 ^ 2

abbrev pub ack_value : (irq src : ℕ) → ℕ
ack_value irq src = irq % 2 ^ 10 + src % 2 ^ 2 * 2 ^ 10

module _ (periph : ℕ) where
  abbrev pub gic_base : ℕ
  gic_base = (periph + arm_gic_base_offset) % 2 ^ 32

  abbrev pub gic_write_reg : (off val : ℕ) → Io (Unit {0})
  gic_write_reg off val = arm_mmio_write32 gic_base off val

  abbrev pub gic_read_reg : Device → (off : ℕ) → Io ℕ
  gic_read_reg dev off = arm_mmio_read32 dev gic_base off

  -- The number of the interrupt and of the processor.
  unfoldable pub cortex_a9_gic_get_current_irq : Device → Io (ℕ × ℕ)
  cortex_a9_gic_get_current_irq dev = do
    val ← gic_read_reg dev iar
    pure (ack_intid val, ack_cpuid val)

  unfoldable pub cortex_a9_gic_acknowledge_irq : (irq src : ℕ) → Io (Unit {0})
  cortex_a9_gic_acknowledge_irq irq src = gic_write_reg eoir (ack_value irq src)

  unfoldable pub cortex_a9_gic_init : Device → Io (Unit {0})
  cortex_a9_gic_init dev = do
    flags ← gic_read_reg dev iidr
    gic_write_reg pmr 0xFF
    gic_write_reg ctlr 0x7

  -- To acknowledge the interrupt that was got from the acknowledge register writes the low twelve
  -- bits that were read back to the end-of-interrupt register.
  pub acknowledge_irq-get_current_irq :
      (dev : Device) (h : History)
      → (do (irq, src) ← cortex_a9_gic_get_current_irq dev; cortex_a9_gic_acknowledge_irq irq src) h
        ≡ some (
          tt,
          write 32 (at gic_base eoir) (dev 32 (at gic_base iar) h % 2 ^ 12)
              ∷ read 32 (at gic_base iar)
              ∷ h,
        )
  unfolding cortex_a9_gic_get_current_irq cortex_a9_gic_acknowledge_irq
  acknowledge_irq-get_current_irq dev h =
      let v = dev 32 (at gic_base iar) h in
      let same : ack_value (ack_intid (v % 2 ^ 32)) (ack_cpuid (v % 2 ^ 32)) % 2 ^ 32 ≡ v % 2 ^ 12 =
        omega arith in
      rw same
