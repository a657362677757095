-- ===== src/Kmain/Versatile.antt =====
-- kmain.c for the VersatilePB: its `irq_init` and its `irq_handler`, which echoes at once.
mod Tests
use osa_kernel_arm_boot_step.Prelude.{
  ℕ, ◌-◌, ◌*◌, ◌%◌, ◌^◌, ◌<◌, ◌≡◌, refl, true, none, some, List, [], ◌∷◌, ◌==◌, if◌then◌else◌,
  Bool-cases, inl, inr,
}
use osa_kernel_arm_boot_step.Mmio.{
  History, Io, read, write, at, get_bit32, pure, ◌>>=◌, ◌>>◌, arm_mmio_read32,
}
use osa_kernel_arm_boot_step.Uart.{
  dr, fr, mis, icr, bit_rxfe, bit_rxim, uart_receive, uart_ack_irqs, uart_enable_irqs,
}
use osa_kernel_arm_boot_step.Uart.Send.{has_room}
use osa_kernel_arm_boot_step.Pl190.{
  Vic, vectaddr, vic_enable_irq, vic_isr, vic_ack, pl190_uart0_intr,
}
use osa_kernel_arm_boot_step.Kmain.{Board, handler_uart0_irq}
use osa_kernel_arm_boot_step.Kmain.Echo.{sent_all, echo, handler-echo}

-- The value that the controller gives for the serial line's interrupt.
abbrev pub uart0_isr : ℕ
uart0_isr = 0xBABE

module _ (b : Board) (v : Vic) where
  -- `irq_init` behind `vic_init`, with `UART_IMSC_RXIM`
  pub irq_init : Io (Unit {0})
  irq_init = do
    vic_enable_irq v b.dev pl190_uart0_intr uart0_isr
    uart_enable_irqs b.dev b.stdin (2 ^ bit_rxim)

  -- The body of the `if`; where nothing was received, the character stays the dot.
  unfoldable pub received_case : Io (Unit {0})
  received_case = do
    d ← uart_receive b.dev b.stdin
    handler_uart0_irq b (elim d [ none ↦ b'.' | some x ↦ x ])
    uart_ack_irqs b.dev b.stdin

  unfoldable pub irq_handler : Io (Unit {0})
  unfolding received_case
  irq_handler = do
    isr ← vic_isr v b.dev
    (if isr == uart0_isr then received_case else pure tt)
    vic_ack v

  -- The history behind the reads of the vector address and of the serial line's flags.
  abbrev read_isr : History → History
  read_isr h = read 32 (at v.vic vectaddr) ∷ h

  abbrev read_flags : History → History
  read_flags h = read 32 (at b.stdin fr) ∷ h

  -- What the echo leaves of a history, where there is a byte, and where there is none.
  abbrev pub echoed : History → History
  echoed h =
      if get_bit32 (b.dev 32 (at b.stdin fr) h % 2 ^ 32) bit_rxfe == 0
      then sent_all b.stdout (echo (b.dev 32 (at b.stdin dr) (read_flags h) % 2 ^ 32 % 2 ^ 8))
          (read 32 (at b.stdin dr) ∷ read_flags h)
      else sent_all b.stdout (echo b'.') (read_flags h)

  -- The accesses of `uart_ack_irqs`.
  abbrev pub cleared : History → History
  cleared h =
      let m = b.dev 32 (at b.stdin mis) h % 2 ^ 32 in
      write 32 (at b.stdin icr) ((m - get_bit32 m bit_rxim * 2 ^ bit_rxim) % 2 ^ 32)
      ∷ read 32 (at b.stdin mis)
      ∷ h

  module _ (ready : (h : History) → has_room b.dev b.stdout h ≡ true) (polls : 0 < b.fuel) where
    received_case-echo : (h : History) → received_case h ≡ some (tt, cleared (echoed h))
    unfolding received_case uart_receive uart_ack_irqs
    received_case-echo h =
        let taken : History = read 32 (at b.stdin dr) ∷ read_flags h in
        let char : ℕ = b.dev 32 (at b.stdin dr) (read_flags h) % 2 ^ 32 % 2 ^ 8 in
        elim (Bool-cases (get_bit32 (b.dev 32 (at b.stdin fr) h % 2 ^ 32) bit_rxfe == 0)) [
          | inl e ↦ rw (e, handler-echo b ready polls char taken) refl
          | inr e ↦ rw (e, handler-echo b ready polls b'.' (read_flags h)) refl
        ]

    -- If the transmit FIFO always has room, the VersatilePB's handler ends, and its last access is
    -- the acknowledgement at the controller. For the serial line's vector, it sends the echo of the
    -- received byte, or of a dot if there is none, and then writes what the register of the raised
    -- interrupts was read with, less the receive interrupt, to the clear register of the device;
    -- for any other vector, it does nothing else.
    pub irq_handler-echo :
        (h : History)
        → irq_handler h
          ≡ some (
            tt,
            write 32 (at v.vic vectaddr) 0
                ∷ (if b.dev 32 (at v.vic vectaddr) h % 2 ^ 32 == uart0_isr
                    then cleared (echoed (read_isr h))
                    else read_isr h),
          )
    unfolding irq_handler vic_isr vic_ack
    irq_handler-echo h = elim (Bool-cases (b.dev 32 (at v.vic vectaddr) h % 2 ^ 32 == uart0_isr)) [
      | inl e ↦ rw (e, received_case-echo (read_isr h)) refl
      | inr e ↦ rw e refl
    ]
