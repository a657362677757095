-- ===== src/Gid/Tests.antt =====
-- The distributor of the VExpress-A9, and interrupt 37.
use osa_kernel_arm_boot_step.Prelude.{ℕ, ◌<◌, ◌≡◌, some, [], ◌∷◌, arith}
use osa_kernel_arm_boot_step.Mmio.{History, write, at}
use osa_kernel_arm_boot_step.Gid.{
  gid_base, icddcr, icdiser, icdicer, cortex_a9_nirqs, cortex_a9_gid_enable_irq,
  cortex_a9_gid_disable_irq, cortex_a9_gid_init,
}
use osa_kernel_arm_boot_step.Gid.Bits.{WritesBit, enable_irq-disable_irq}
use osa_kernel_arm_boot_step.Gid.Init.{IsReset, gid_init-IsReset}

enable_irq-disable_irq_example :
    ((s : History) × (cortex_a9_gid_enable_irq 0x1E000000 37 [] ≡ some (tt, s))
      × WritesBit 8 0x1E000000 icdiser 37 [] s)
    × ((c : History) × (cortex_a9_gid_disable_irq 0x1E000000 37 [] ≡ some (tt, c))
        × WritesBit 32 0x1E000000 icdicer 37 [] c)
enable_irq-disable_irq_example = enable_irq-disable_irq 0x1E000000 37 []

gid_init-IsReset_example :
    (h' : History) × (cortex_a9_gid_init 0x1E000000 (λ w addr h. 0) []
      ≡ some (tt, write 32 (at (gid_base 0x1E000000) icddcr) 3 ∷ h'))
    × ((irq : ℕ) → irq < cortex_a9_nirqs → IsReset 0x1E000000 irq h')
gid_init-IsReset_example = gid_init-IsReset 0x1E000000 (omega arith) (λ w addr h. 0) []
