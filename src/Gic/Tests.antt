-- ===== src/Gic/Tests.antt =====
-- The acknowledgement of an interrupt with the number 37 of processor 1.
use osa_kernel_arm_boot_step.Prelude.{◌≡◌, some, [], ◌∷◌}
use osa_kernel_arm_boot_step.Mmio.{◌>>=◌, read, write}
use osa_kernel_arm_boot_step.Gic.{
  cortex_a9_gic_get_current_irq, cortex_a9_gic_acknowledge_irq, acknowledge_irq-get_current_irq,
}

acknowledge_irq-get_current_irq_example :
    (do
      (irq, src) ← cortex_a9_gic_get_current_irq 0x1E000000 (λ w addr h. 0xF425)
      cortex_a9_gic_acknowledge_irq 0x1E000000 irq src)
      []
    ≡ some (tt, write 32 0x1E000110 0x425 ∷ read 32 0x1E00010C ∷ [])
acknowledge_irq-get_current_irq_example =
    acknowledge_irq-get_current_irq 0x1E000000 (λ w addr h. 0xF425) []
