-- ===== src/Kmain/Boot/Run.antt =====
-- kmain.c: from the boot to any round of the main loop.
use osa_kernel_arm_boot_step.Kmain.Boot.Ends.{Ends}
