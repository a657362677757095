-- ===== src/Kmain/User.antt =====
-- user.c, and the handler of its system calls in kmain.c. What the processor does is a parameter:
-- the change of the mode, the attempt to write CPSR, and the trap of the SWI instruction.
use osa_kernel_arm_boot_step.Prelude.{ℕ, ◌∷◌, [], ◌++◌, ◌==◌, if◌then◌else◌}
use osa_kernel_arm_boot_step.Mmio.{Io, pure, ◌>>=◌, ◌>>◌}
use osa_kernel_arm_boot_step.Kprintf.Spec.{word}
use osa_kernel_arm_boot_step.Kmain.{Board, kprintf_out}
use osa_kernel_arm_boot_step.Kprintf.Digits.{codes}

-- The processor: the values `old` and `niu` of CPSR around the attempt, a system call by its number,
-- and a run of a program in user mode up to its `exit`, which leaves its code.
pub record Processor : Type 0 where
  pub change_mode : Io (ℕ × ℕ)
  pub swi : ℕ → Io (Unit {0})
  pub arm_usr_mode : Io ℕ → Io ℕ

module _ (b : Board) where
  unfoldable pub swi_handler : (r0 r1 r2 number : ℕ) → Io (Unit {0})
  swi_handler r0 r1 r2 number =
      kprintf_out b (codes "SWI no=%d, r0=0x%x r1=0x%x r2=0x%x  " ++ 10 ∷ [])
        (word number ∷ word r0 ∷ word r1 ∷ word r2 ∷ [])

  module _ (p : Processor) where
    -- The result is `errcode`.
    unfoldable pub exit : (errcode : ℕ) → Io ℕ
    exit errcode = do p.swi 0; pure errcode

    -- The argument is not passed on.
    unfoldable pub sleep : (delay : ℕ) → Io (Unit {0})
    sleep delay = p.swi 1

    unfoldable pub main : (pid : ℕ) → Io ℕ
    main pid = do
      kprintf_out b (codes "USER[%d]: Hello!" ++ 10 ∷ []) (word pid ∷ [])
      (old, niu) ← p.change_mode
      if old == niu then kprintf_out b (codes " -- in USR mode!" ++ 10 ∷ []) [] else (do
        kprintf_out b (codes "USR mode succeeded to change to SYS mode") []
        kprintf_out b (codes " cpsr=0x%x -> cpsr=0x%x " ++ 10 ∷ []) (word old ∷ word niu ∷ []))
      sleep 0x1234
      exit 0

    unfoldable pub umain : (pid : ℕ) → Io (Unit {0})
    umain pid = do
      kprintf_out b (codes "--> launching user pid=%d..." ++ 10 ∷ []) (word pid ∷ [])
      errcode ← p.arm_usr_mode (main pid)
      kprintf_out b (codes "--> user pid=%d exited, errcode=%d " ++ 10 ∷ [])
          (word pid ∷ word errcode ∷ [])
