-- ===== src/Mmio/Tests.antt =====
-- Bits of a byte.
use osa_kernel_arm_boot_step.Prelude.{◌≡◌, arith}
use osa_kernel_arm_boot_step.Mmio.Update.{get_bit8, set_bit8, clear_bit8}
use osa_kernel_arm_boot_step.Mmio.Bits.{set_bit8-clear_bit8}

set_bit8-clear_bit8_example :
    (get_bit8 (set_bit8 0x1A5 3) 2 ≡ 1) × (get_bit8 (clear_bit8 0x1A5 3) 2 ≡ 1)
set_bit8-clear_bit8_example = set_bit8-clear_bit8 0x1A5 3 2 (omega arith) (omega arith)
