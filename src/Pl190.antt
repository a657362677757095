-- ===== src/Pl190.antt =====
-- pl190.c and pl190.h: the vectored interrupt controller of the VersatilePB. The packed fields of
-- its three structures are registers at fixed offsets.
use Prim.Native.Nat.{bit_or}
use osa_kernel_arm_boot_step.Prelude.{ℕ, ◌-◌, ◌*◌, ◌^◌}
use osa_kernel_arm_boot_step.Mmio.{
  Device, Io, ◌>>=◌, ◌>>◌, arm_mmio_read32, arm_mmio_write32, get_bit32,
}

abbrev pub pl190_bar0 : ℕ
pl190_bar0 = 0x10140000

abbrev pub pl190_bar1 : ℕ
pl190_bar1 = 0x10140100

abbrev pub pl190_bar2 : ℕ
pl190_bar2 = 0x10140200

abbrev pub pl190_uart0_intr : ℕ
pl190_uart0_intr = 12

-- The offsets of the fields of `struct pl190`.
abbrev pub intr_select : ℕ
intr_select = 0x0C

abbrev pub intr_enable : ℕ
intr_enable = 0x10

abbrev pub vectaddr : ℕ
vectaddr = 0x30

-- The offsets of `isrs[i]` and of `srcs[i]`.
abbrev pub isrs : ℕ → ℕ
isrs i = 4 * i

abbrev pub srcs : ℕ → ℕ
srcs i = 4 * i

-- The globals, the addresses of the three structures.
pub record Vic : Type 0 where
  pub vic : ℕ
  pub vic_vectaddrs : ℕ
  pub vic_vectcntls : ℕ

abbrev pub vic_init : Vic
vic_init = record { vic = pl190_bar0; vic_vectaddrs = pl190_bar1; vic_vectcntls = pl190_bar2 }

module _ (v : Vic) where
  -- `vic->intr_select &= ~(1<<irqno);` with the one bit taken off; `irqno` is less than 32.
  pub vic_enable_irq : Device → (irqno isr : ℕ) → Io (Unit {0})
  vic_enable_irq dev irqno isr = do
    arm_mmio_write32 v.vic_vectaddrs (isrs 0) isr
    arm_mmio_write32 v.vic_vectcntls (srcs 0) (bit_or (2 ^ 5) irqno)
    select ← arm_mmio_read32 dev v.vic intr_select
    arm_mmio_write32 v.vic intr_select (select - get_bit32 select irqno * 2 ^ irqno)
    arm_mmio_write32 v.vic intr_enable (2 ^ irqno)

  unfoldable pub vic_isr : Device → Io ℕ
  vic_isr dev = arm_mmio_read32 dev v.vic vectaddr

  unfoldable pub vic_ack : Io (Unit {0})
  vic_ack = arm_mmio_write32 v.vic vectaddr 0
