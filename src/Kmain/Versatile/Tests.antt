-- ===== src/Kmain/Versatile/Tests.antt =====
-- The VersatilePB's handler on a controller that has the serial line's vector, and a carriage return
-- in the receive FIFO.
use osa_kernel_arm_boot_step.Prelude.{[], ◌∷◌, ◌≡◌, refl, none, some, ◌==◌, if◌then◌else◌, arith}
use osa_kernel_arm_boot_step.Mmio.{read, write}
use osa_kernel_arm_boot_step.Pl190.{vic_init}
use osa_kernel_arm_boot_step.Kmain.{Board}
use osa_kernel_arm_boot_step.Kmain.Echo.{sent_all}
use osa_kernel_arm_boot_step.Kmain.Versatile.{irq_handler, irq_handler-echo}

abbrev versatile : Board
versatile = record {
  dev = λ w addr h. if addr == 0x10140030 then 0xBABE else if addr == 0x101F1000 then 13 else 0;
  periph = 0;
  uart0 = 0x101F1000;
  stdin = 0x101F1000;
  stdout = 0x101F1000;
  fuel = 1;
  handler_address = 0;
  call = λ p c h. none;
}

irq_handler-echo_example :
    irq_handler versatile vic_init []
    ≡ some (
      tt,
      write 32 0x10140030 0
          ∷ write 32 0x101F1044 0
          ∷ read 32 0x101F1040
          ∷ sent_all 0x101F1000
              (13 ∷ 10 ∷ [])
              (read 32 0x101F1000 ∷ read 32 0x101F1018 ∷ read 32 0x10140030 ∷ []),
    )
irq_handler-echo_example = irq_handler-echo versatile vic_init (λ h. refl) (omega arith) []
