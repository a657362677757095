-- ===== src/Uart.antt =====
-- pl011.c and pl011.h: the PL011 UART. `uart` is the address of the `struct pl011_uart`, whose
-- packed fields are registers at fixed offsets.
pub mod Send
pub mod Irqs
mod Tests
use Prim.Native.Nat.{bit_and, bit_or}
use osa_kernel_arm_boot_step.Prelude.{
  ℕ, zero, suc, ◌+◌, ◌-◌, ◌*◌, ◌/◌, ◌%◌, ◌^◌, Bool, not, Option, none, some, List, [], ◌∷◌, ◌==◌,
  if◌then◌else◌,
}
use osa_kernel_arm_boot_step.Mmio.{
  Device, Io, pure, ◌>>=◌, ◌>>◌, bind_result, arm_mmio_read32, arm_mmio_write32, get_bit32,
}

abbrev pub dr : ℕ
dr = 0x00

abbrev pub fr : ℕ
fr = 0x18

abbrev pub cr : ℕ
cr = 0x30

abbrev pub ifls : ℕ
ifls = 0x34

abbrev pub imsc : ℕ
imsc = 0x38

abbrev pub mis : ℕ
mis = 0x40

abbrev pub icr : ℕ
icr = 0x44

-- `1 << bit` for the flags UART_TXFF and UART_RXFE, and for UART_IMSC_RXIM
abbrev pub bit_txff : ℕ
bit_txff = 5

abbrev pub bit_rxfe : ℕ
bit_rxfe = 4

abbrev pub bit_rxim : ℕ
bit_rxim = 4

-- `UART_CR_UARTEN | UART_CR_TXE | UART_CR_RXE`
abbrev pub cr_enable : ℕ
cr_enable = 0x301

-- `~x` on 32 bits
abbrev pub not32 : ℕ → ℕ
not32 x = 2 ^ 32 - 1 - x

module _ (dev : Device) (uart : ℕ) where
  -- `uart->CR &= ~(UART_CR_UARTEN | UART_CR_TXE | UART_CR_RXE);`
  unfoldable pub cr_off : Io (Unit {0})
  cr_off = do
    v ← arm_mmio_read32 dev uart cr
    arm_mmio_write32 uart cr (bit_and v (not32 cr_enable))

  -- `uart->CR |= (UART_CR_UARTEN | UART_CR_TXE | UART_CR_RXE);`
  unfoldable pub cr_on : Io (Unit {0})
  cr_on = do v ← arm_mmio_read32 dev uart cr; arm_mmio_write32 uart cr (bit_or v cr_enable)

  unfoldable pub uart_init : Io (Unit {0})
  unfolding cr_off cr_on
  uart_init = do cr_off; arm_mmio_write32 uart icr 0x7FFF; arm_mmio_write32 uart imsc 0x00; cr_on

  -- `none` is the result 0: the receive FIFO is empty.
  unfoldable pub uart_receive : Io (Option ℕ)
  uart_receive = do
    flags ← arm_mmio_read32 dev uart fr
    if get_bit32 flags bit_rxfe == 0
        then (do d ← arm_mmio_read32 dev uart dr; pure (some (d % 2 ^ 8)))
        else pure none

  -- `while (uart->FR & UART_TXFF);` makes at most `fuel` polls.
  pub uart_send : ℕ → ℕ → Io (Unit {0})
  uart_send zero c h = none
  uart_send (suc fuel) c h =
      (do
        flags ← arm_mmio_read32 dev uart fr
        (λ s.
            let again = uart_send fuel c s in
            if get_bit32 flags bit_txff == 0
            then arm_mmio_write32 uart dr (c % 2 ^ 8) s
            else again))
        h

  -- A string is the list of its bytes; a NUL ends it, and so does the end of the list.
  pub uart_send_string : ℕ → List ℕ → Io (Unit {0})
  uart_send_string fuel [] h = pure tt h
  uart_send_string fuel (c ∷ s) h =
      let rest = (do uart_send fuel c; uart_send_string fuel s) h in
      if c == 0 then pure tt h else rest

  unfoldable pub uart_enable_irqs : ℕ → Io (Unit {0})
  unfolding cr_off cr_on
  uart_enable_irqs irqs = do
    cr_off
    arm_mmio_write32 uart icr 0x7FFF
    arm_mmio_write32 uart imsc irqs
    arm_mmio_write32 uart ifls 0x02
    cr_on

  pub uart_disable_irqs : ℕ → Io (Unit {0})
  unfolding cr_off cr_on
  uart_disable_irqs irqs = do
    cr_off
    arm_mmio_write32 uart icr 0x7FFF
    v ← arm_mmio_read32 dev uart imsc
    arm_mmio_write32 uart imsc (bit_and v (not32 irqs))
    arm_mmio_write32 uart ifls 0x02
    cr_on

  pub uart_clear_all_irqs : Io (Unit {0})
  uart_clear_all_irqs = arm_mmio_write32 uart icr 0x7FFF

  pub uart_clear_irqs : ℕ → Io (Unit {0})
  uart_clear_irqs irqs = arm_mmio_write32 uart icr irqs

  -- `uart->ICR = uart->MIS & ~UART_IMSC_RXIM;` with the one bit taken off
  unfoldable pub uart_ack_irqs : Io (Unit {0})
  uart_ack_irqs = do
    v ← arm_mmio_read32 dev uart mis
    arm_mmio_write32 uart icr (v - get_bit32 v bit_rxim * 2 ^ bit_rxim)
