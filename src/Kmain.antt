-- ===== src/Kmain.antt =====
-- kmain.c for the VExpress-A9: the interrupt handler, the handling of the pending interrupts and
-- the polling echo. A handler runs to its end before anything else runs.
pub mod Echo
pub mod Arrival
pub mod Counter
pub mod System
pub mod Versatile
pub mod Boot
pub mod User
pub mod Poll
mod Tests
use osa_kernel_arm_boot_step.Prelude.{
  ℕ, zero, suc, ◌+◌, ◌-◌, ◌*◌, ◌/◌, ◌%◌, ◌^◌, ◌||◌, Bool, Option, none, some, List, [], ◌∷◌, ◌==◌,
  if◌then◌else◌,
}
use osa_kernel_arm_boot_step.Kmem.State.{Ptr}
use osa_kernel_arm_boot_step.PendingList
use osa_kernel_arm_boot_step.PendingList.{
  Allocator, Pending, Entry, Result, ok, halted, unknown_irq, is_full_pending_irq_list, sizeof_node,
  add_pending_irq, get_and_remove_pending_irq,
}
use osa_kernel_arm_boot_step.Mmio.{
  Device, History, Io, pure, bind_result, ◌>>◌, ◌>>=◌, arm_mmio_read32,
}
use osa_kernel_arm_boot_step.Uart.{uart_receive, uart_send, uart_ack_irqs}
use osa_kernel_arm_boot_step.Gic.{
  is_spurious, cortex_a9_gic_get_current_irq, cortex_a9_gic_acknowledge_irq,
}
use osa_kernel_arm_boot_step.Kprintf.Digits.{Bytes}
use osa_kernel_arm_boot_step.Kprintf.Spec.{Args, word}
use osa_kernel_arm_boot_step.Kprintf.Print.{kprintf, Printed, printed, undefined}
use osa_kernel_arm_boot_step.Kprintf.Print
use osa_kernel_arm_boot_step.Timer.{arm_pwt_base_offset, off_counter}

abbrev pub uart0_irq : ℕ
uart0_irq = 37

-- The devices and their addresses, how often `uart_send` polls, the address of the handler, and
-- what a call of the function at an address does.
pub record Board : Type 0 where
  pub dev : Device
  pub periph : ℕ
  pub uart0 : ℕ
  pub stdin : ℕ
  pub stdout : ℕ
  pub fuel : ℕ
  pub handler_address : Ptr
  pub call : Ptr → ℕ → Io (Unit {0})

-- `+++ counter = 0x%x\n`
abbrev pub counter_format : Bytes
counter_format =
    b'+' ∷ b'+' ∷ b'+' ∷ b' ' ∷ b'c' ∷ b'o' ∷ b'u' ∷ b'n' ∷ b't' ∷ b'e' ∷ b'r' ∷ b' ' ∷ b'=' ∷ b' '
    ∷ b'0' ∷ b'x' ∷ b'%' ∷ b'x' ∷ 10 ∷ []

module _ (b : Board) where
  -- The echo of a character, in `handler_uart0_IRQ` and in `poll`.
  pub handler_uart0_irq : ℕ → Io (Unit {0})
  handler_uart0_irq c =
      if c == 13
      then (do uart_send b.dev b.stdout b.fuel 13; uart_send b.dev b.stdout b.fuel 10)
      else uart_send b.dev b.stdout b.fuel c

  -- `kputchar` for each character of a text
  pub put_text : Bytes → Io (Unit {0})
  put_text [] h = some (tt, h)
  put_text (c ∷ s) h = (do uart_send b.dev b.uart0 b.fuel c; put_text s) h

  -- What `kprintf` prints goes out by `kputchar`; no conversion of these calls is undefined.
  pub kprintf_out : Bytes → Args → Io (Unit {0})
  unfolding put_text
  kprintf_out fmt args h = elim (kprintf fmt args) [
    | printed text stores ↦ put_text text h
    | undefined ↦ none
    | Print.out_of_fuel ↦ none
  ]

  -- A round of `poll` behind `zzz`, without the test of the allocator, which is off.
  pub poll_once : Io (Unit {0})
  unfolding handler_uart0_irq
  poll_once = do
    c ← uart_receive b.dev b.stdin
    elim c [ none ↦ pure tt | some d ↦ handler_uart0_irq d ]

  pub show_counter : Io (Unit {0})
  unfolding kprintf_out
  show_counter = do
    counter ← arm_mmio_read32 b.dev ((b.periph + arm_pwt_base_offset) % 2 ^ 32) off_counter
    kprintf_out counter_format (word counter ∷ [])

  module _ (a : Allocator) where
    open a use {Store}

    pub record Kernel : Type 0 where
      pub pending : Pending
      pub store : Store
      pub io : History

    -- A device access of the kernel.
    abbrev pub lift : {A : Type 0} → Io A → Kernel → (A → Kernel → Result Kernel) → Result Kernel
    lift m k next = elim (m k.io) [
      | none ↦ PendingList.out_of_fuel
      | some (x, h) ↦ next x (record k { io = h })
    ]

    -- `while (getAndRemovePendingIrq(&pendingIrq)) switch (pendingIrq.irqId) ...`
    pub handle_loop : ℕ → Kernel → Result Kernel
    handle_loop zero k = PendingList.out_of_fuel
    handle_loop (suc fuel) k = elim (get_and_remove_pending_irq a k.pending k.store) [
      | ok (none, q, s) ↦ ok (record k { pending = q; store = s })
      | ok (some e, q, s) ↦
          let next : Result Kernel =
            lift (b.call e.handler e.received_char) (record k { pending = q; store = s })
              (λ _ k'. handle_loop fuel k') in
          if e.irq_id == uart0_irq then next else halted unknown_irq
      | halted reason ↦ halted reason
      | PendingList.out_of_fuel ↦ PendingList.out_of_fuel
    ]

    -- A round for each pending interrupt, and the one that finds none.
    pub handl_all_pending_irq : Kernel → Result Kernel
    unfolding handle_loop
    handl_all_pending_irq k =
        lift show_counter k (λ _ k'. handle_loop (k'.pending.nb_pending_irq_request + 1) k')

    -- `addPendingIrq`, in a result with the rest of the kernel. With room in the list it calls
    -- `kmalloc`, which may print.
    abbrev pub enqueue : Entry → Kernel → (Kernel → Result Kernel) → Result Kernel
    enqueue e k next =
        let text : Bytes =
          if is_full_pending_irq_list k.pending then [] else a.message sizeof_node k.store in
        lift (put_text text) k (λ _ k1. elim (add_pending_irq a e k1.pending k1.store) [
          | ok (q, s) ↦ next (record k1 { pending = q; store = s })
          | halted reason ↦ halted reason
          | PendingList.out_of_fuel ↦ PendingList.out_of_fuel
        ])

    -- The `case UART0_IRQ` and the acknowledgement behind the switch. Where nothing was received,
    -- the character stays the dot.
    pub uart0_case : (irq cpu : ℕ) → Kernel → Result Kernel
    uart0_case irq cpu k = lift (uart_receive b.dev b.stdin) k (λ d k1.
        let c : ℕ = elim d [ none ↦ b'.' | some x ↦ x ] in
        enqueue (record { irq_id = irq; received_char = c; handler = b.handler_address }) k1
          (λ k2.
            lift (uart_ack_irqs b.dev b.stdin) k2
              (λ _ k3. lift (cortex_a9_gic_acknowledge_irq b.periph irq cpu) k3 (λ _ k4. ok k4))))

    -- `irq_handler` behind the handling of a full list
    pub current_irq : Kernel → Result Kernel
    unfolding uart0_case
    current_irq k = lift (cortex_a9_gic_get_current_irq b.periph b.dev) k (λ (irq, cpu) k1.
        if is_spurious irq
        then ok k1
        else if irq == uart0_irq
        then uart0_case irq cpu k1
        else halted unknown_irq)

    pub irq_handler : Kernel → Result Kernel
    unfolding handl_all_pending_irq current_irq
    irq_handler k =
        if is_full_pending_irq_list k.pending
        then elim (handl_all_pending_irq k) [
          | ok k' ↦ current_irq k'
          | halted reason ↦ halted reason
          | PendingList.out_of_fuel ↦ PendingList.out_of_fuel
        ]
        else current_irq k
