-- ===== src/Timer/Tests.antt =====
-- The timer with an empty control register, and on a device that reads as zero.
use osa_kernel_arm_boot_step.Prelude.{◌/◌, ◌^◌, ◌<◌, ◌≡◌, some, [], arith}
use osa_kernel_arm_boot_step.Mmio.{History, written, get_bit32}
use osa_kernel_arm_boot_step.Timer.{
  new_control, set_timmer, bit_interupt_enable, bit_watchdog_enable, bit_auto_reload,
  bit_watchdog_mode,
}
use osa_kernel_arm_boot_step.Timer.Control.{new_control_bits, set_timmer-control}

new_control_bits_example :
    (get_bit32 (new_control 0x100 1) bit_interupt_enable ≡ 1)
    × (get_bit32 (new_control 0x100 1) bit_watchdog_enable ≡ 1)
    × (get_bit32 (new_control 0x100 1) bit_auto_reload ≡ 1)
    × (new_control 0x100 1 / 2 ^ bit_watchdog_mode ≡ 0x20)
    × (new_control 0x100 1 < 2 ^ 32)
new_control_bits_example = new_control_bits 0x100 1 (omega arith)

set_timmer-control_example :
    (h' : History) × (set_timmer (λ w addr h. 0) 0x1E001000 0x1E000000 1000 0 [] ≡ some (tt, h'))
    × (written 32 0x1E006028 h' ≡ [])
unfolding written
set_timmer-control_example =
    set_timmer-control 0x1E000000 (omega arith) (omega arith) (λ w addr h. 0) 0x1E001000 1000 0 []
