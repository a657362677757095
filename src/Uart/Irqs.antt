-- ===== src/Uart/Irqs.antt =====
-- pl011.c: the interrupt registers.
use osa_kernel_arm_boot_step.Prelude.{ℕ, ◌-◌, ◌*◌, ◌/◌, ◌%◌, ◌^◌, ◌≡◌, refl, arith, some, ◌∷◌}
use osa_kernel_arm_boot_step.Mmio.{Device, History, read, write, at, get_bit32}
use osa_kernel_arm_boot_step.Uart.{mis, icr, bit_rxim, uart_ack_irqs}

module _ (dev : Device) (uart : ℕ) where
  -- One write of the clear register acknowledges interrupts: it has a zero for the receive
  -- interrupt, and for every other bit what the register of the raised interrupts was read with.
  pub uart_ack_irqs_lem :
      (h : History)
      → (x : ℕ) × (uart_ack_irqs dev uart h
          ≡ some (tt, write 32 (at uart icr) x ∷ read 32 (at uart mis) ∷ h))
        × (get_bit32 x bit_rxim ≡ 0)
        × (x % 2 ^ 4 ≡ dev 32 (at uart mis) h % 2 ^ 4)
        × (x / 2 ^ 5 ≡ dev 32 (at uart mis) h % 2 ^ 32 / 2 ^ 5)
  unfolding uart_ack_irqs
  uart_ack_irqs_lem h =
      let v = dev 32 (at uart mis) h % 2 ^ 32 in
      (
        (v - get_bit32 v bit_rxim * 2 ^ bit_rxim) % 2 ^ 32,
        refl,
        omega arith,
        omega arith,
        omega arith,
      )
