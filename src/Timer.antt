-- ===== src/Timer.antt =====
-- timer.c and timer.h: the private timer and watchdog of the Cortex-A9.
pub mod Control
mod Tests
use osa_kernel_arm_boot_step.Prelude.{
  ℕ, ◌+◌, ◌%◌, ◌^◌, Bool, true, false, ◌&&◌, ◌==◌, if◌then◌else◌,
}
use osa_kernel_arm_boot_step.Mmio.{
  Device, Io, pure, ◌>>=◌, ◌>>◌, arm_mmio_read32, arm_mmio_write32, get_bit32, set_bit32,
}
use osa_kernel_arm_boot_step.Gid.{cortex_a9_gid_enable_irq}

abbrev pub arm_pwt_base_offset : ℕ
arm_pwt_base_offset = 0x06000

abbrev pub off_load : ℕ
off_load = 0x20

abbrev pub off_counter : ℕ
off_counter = 0x24

abbrev pub off_control : ℕ
off_control = 0x28

abbrev pub bit_watchdog_mode : ℕ
bit_watchdog_mode = 3

abbrev pub bit_interupt_enable : ℕ
bit_interupt_enable = 2

abbrev pub bit_auto_reload : ℕ
bit_auto_reload = 1

abbrev pub bit_watchdog_enable : ℕ
bit_watchdog_enable = 0

-- `if (!bit) value = setBit32(value, bit)`
abbrev pub ensure_bit : (was value index : ℕ) → ℕ
ensure_bit was value index = if was == 0 then set_bit32 value index else value

-- The control word before the bit of the automatic reload is looked at.
pub enabled : ℕ → ℕ
enabled ctrl =
    let a = ensure_bit (get_bit32 ctrl bit_interupt_enable) ctrl bit_interupt_enable in
    ensure_bit (get_bit32 ctrl bit_watchdog_enable) a bit_watchdog_enable

-- `!isAutoReload && multipleShot`
pub wants_reload : (ctrl multiple_shot : ℕ) → Bool
wants_reload ctrl multiple_shot =
    (get_bit32 ctrl bit_auto_reload == 0) && (if multiple_shot == 0 then false else true)

-- The control word that `setTimmer` writes.
pub new_control : (ctrl multiple_shot : ℕ) → ℕ
unfolding enabled wants_reload
new_control ctrl multiple_shot =
    if wants_reload ctrl multiple_shot
    then set_bit32 (enabled ctrl) bit_auto_reload
    else enabled ctrl

-- The writes of `setTimmer`, once the control word is read. The last one has no
-- `cortex_a9_peripheral_base()` in its address, as in the source.
pub program : (base time ctrl new : ℕ) → (timer_mode reload : Bool) → Io (Unit {0})
program base time ctrl new timer_mode reload = do
  arm_mmio_write32 base (if timer_mode then off_counter else off_load) time
  if reload && timer_mode then arm_mmio_write32 base off_load time else pure tt
  if new == ctrl then pure tt else arm_mmio_write32 arm_pwt_base_offset off_control new

-- `gid` is the variable `periph_base` of gid.c, and `periph` the base that the processor reports.
pub set_timmer : Device → (gid periph time multiple_shot : ℕ) → Io (Unit {0})
unfolding cortex_a9_gid_enable_irq
set_timmer dev gid periph time multiple_shot = do
  cortex_a9_gid_enable_irq gid 29
  cortex_a9_gid_enable_irq gid 30
  let base = (periph + arm_pwt_base_offset) % 2 ^ 32
  ctrl ← arm_mmio_read32 dev base off_control
  let timer_mode = get_bit32 ctrl bit_watchdog_mode == 0
  program base time ctrl (new_control ctrl multiple_shot) timer_mode
      (wants_reload ctrl multiple_shot)
