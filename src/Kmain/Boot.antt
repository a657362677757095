-- ===== src/Kmain/Boot.antt =====
-- kmain.c for the VExpress-A9: `irq_init`, and `kmain` up to its loop.
pub mod Ends
pub mod Run
pub mod Kheap
use osa_kernel_arm_boot_step.Prelude.{
  ℕ, ◌-◌, ◌^◌, Bool, true, false, Option, none, some, List, [], ◌∷◌, ◌++◌, if◌then◌else◌,
}
use osa_kernel_arm_boot_step.Mmio.{Io, pure, ◌>>=◌, ◌>>◌, bind_result}
use osa_kernel_arm_boot_step.Uart.{uart_init, uart_send_string, uart_enable_irqs, bit_rxim}
use osa_kernel_arm_boot_step.Gid.{cortex_a9_gid_init, cortex_a9_gid_enable_irq}
use osa_kernel_arm_boot_step.Gic.{cortex_a9_gic_init}
use osa_kernel_arm_boot_step.Timer.{set_timmer}
use osa_kernel_arm_boot_step.PendingList
use osa_kernel_arm_boot_step.PendingList.{
  Allocator, Pending, Result, ok, halted, no_memory, init_irq_pending_list,
}
use osa_kernel_arm_boot_step.Kprintf.Digits.{Bytes, codes}
use osa_kernel_arm_boot_step.Kmain.{Board, Kernel, uart0_irq, put_text}

-- `\n\r`, the end of most of the messages
abbrev pub line_end : List ℕ
line_end = 10 ∷ 13 ∷ []

-- What the boot takes from elsewhere: whether LOCAL_ECHO is defined, the initialisation of the heap,
-- where `none` is a halt, and what it prints from the heap behind it, and `umain` of user.c, which runs a program in user mode.
pub record Startup (a : Allocator) : Type 0 where
  pub local_echo : Bool
  pub space_valloc_init : Allocator.Store a → Option (Allocator.Store a)
  pub init_message : Allocator.Store a → Bytes
  pub umain : ℕ → Io (Unit {0})

module _ (b : Board) where
  unfoldable pub say : List ℕ → Io (Unit {0})
  say s = uart_send_string b.dev b.stdout b.fuel s

  unfoldable pub irq_init : Io (Unit {0})
  unfolding say
  irq_init = do
    cortex_a9_gid_init b.periph b.dev
    say (codes "GID initialized." ++ line_end)
    cortex_a9_gic_init b.periph b.dev
    say (codes "GIC initialized." ++ line_end)
    uart_enable_irqs b.dev b.stdin (2 ^ bit_rxim)
    cortex_a9_gid_enable_irq b.periph uart0_irq

  module _ {a : Allocator} (u : Startup a) where
    -- Up to `space_valloc_init`. `stdin` and `stdout` are the addresses that it assigns.
    unfoldable pub init_uarts : Io (Unit {0})
    init_uarts = do
      uart_init b.dev b.stdin
      if u.local_echo then pure tt else uart_init b.dev b.stdout

    unfoldable pub greet : Io (Unit {0})
    unfolding say
    greet = do
      say (10 ∷ 10 ∷ codes "Hello world!" ++ line_end)
      uart_send_string b.dev b.stdin b.fuel (codes "Please type here..." ++ line_end)
      if u.local_echo
          then pure tt
          else say (10 ∷ 10 ∷ codes "Characters will appear here..." ++ line_end)

    -- From `umain(32)` to the loop, behind `initIrqPendingList`.
    unfoldable pub start_up : Io (Unit {0})
    unfolding say
    start_up = do
      u.umain 32
      u.umain 16
      say (codes "IRQs enabled" ++ line_end)
      set_timmer b.dev b.periph b.periph (2 ^ 32 - 1) 0
      say (codes "Timer initially armed" ++ line_end)

    -- `kmain` up to its loop
    -- No interrupt comes between `arm_enable_interrupts` and the loop.
    unfoldable pub kmain : Kernel b a → Result (Kernel b a)
    kmain k = elim (init_uarts k.io) [
      | none ↦ PendingList.out_of_fuel
      | some (_, h1) ↦ elim (u.space_valloc_init k.store) [
        | none ↦ halted no_memory
        | some s ↦ elim ((do put_text b (u.init_message s); greet; irq_init; start_up) h1) [
          | none ↦ PendingList.out_of_fuel
          | some (_, h2) ↦
              ok (record { pending = init_irq_pending_list k.pending; store = s; io = h2 })
        ]
      ]
    ]
