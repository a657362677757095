-- ===== src/Dump.antt =====
-- gid.c and gic.c: the dumps of the distributor's and of the CPU interface's registers, which go out
-- by kprintf on UART0.
use osa_kernel_arm_boot_step.Prelude.{
  ℕ, zero, suc, ◌+◌, none, List, [], ◌∷◌, ◌++◌, ltb, if◌then◌else◌,
}
use osa_kernel_arm_boot_step.Mmio.{Io, pure, ◌>>=◌, ◌>>◌, arm_mmio_read8, arm_mmio_read32}
use osa_kernel_arm_boot_step.Gid.{
  gid_base, cortex_a9_nirqs, icddcr, icdiser, icdipr, icdiptr, icdicfr,
}
use osa_kernel_arm_boot_step.Gic.{
  gic_base, ctlr, pmr, iar, eoir, ack_intid, ack_cpuid, ack_value, gic_read_reg, gic_write_reg,
}
use osa_kernel_arm_boot_step.Kprintf.Spec.{Args, word}
use osa_kernel_arm_boot_step.Kmain.{Board, kprintf_out}
use osa_kernel_arm_boot_step.Kprintf.Digits.{codes}

-- The registers that only the dumps read.
abbrev icdictr : ℕ
icdictr = 0x004

abbrev icdispr : ℕ
icdispr = 0x200

abbrev icdabr : ℕ
icdabr = 0x300

abbrev icppisr : ℕ
icppisr = 0xD00

abbrev icspisr : ℕ
icspisr = 0xD04

abbrev bpr : ℕ
bpr = 0x008

abbrev rpr : ℕ
rpr = 0x014

abbrev hppir : ℕ
hppir = 0x018

module _ (b : Board) where
  -- `kprintf` of a text and a line feed, and of a text as it is.
  abbrev print_line : List ℕ → Args → Io (Unit {0})
  print_line fmt args = kprintf_out b (fmt ++ 10 ∷ []) args

  abbrev print : List ℕ → Args → Io (Unit {0})
  print fmt args = kprintf_out b fmt args

  -- `kprintf("%02x ", gid_read_reg8(reg + off));`
  unfoldable pub dump_byte : (reg off : ℕ) → Io (Unit {0})
  dump_byte reg off = do
    v ← arm_mmio_read8 b.dev (gid_base b.periph) (reg + off)
    print (codes "%02x ") (word v ∷ [])

  -- `while (irqno<CORTEX_A9_NIRQS) { kprintf(...); irqno+=step; off+=1; }`
  unfoldable pub dump_bytes : ℕ → (reg step irqno off : ℕ) → Io (Unit {0})
  unfolding dump_byte
  dump_bytes zero reg step irqno off h = none
  dump_bytes (suc fuel) reg step irqno off h =
      let round = (do dump_byte reg off; dump_bytes fuel reg step (irqno + step) (off + 1)) h in
      if ltb irqno cortex_a9_nirqs then round else pure tt h

  -- `for (int i=0;i<16;i++)`, with `n` rounds to go
  unfoldable pub dump_row : ℕ → (reg off : ℕ) → Io (Unit {0})
  unfolding dump_byte
  dump_row zero reg off h = pure tt h
  dump_row (suc n) reg off h = (do dump_byte reg off; dump_row n reg (off + 1)) h

  -- The loops over the registers of a byte for an interrupt; `label` begins a row.
  unfoldable pub dump_rows : ℕ → (label : List ℕ) → (reg irqno : ℕ) → Io (Unit {0})
  unfolding dump_row
  dump_rows zero label reg irqno h = none
  dump_rows (suc fuel) label reg irqno h =
      let next : ℕ = irqno + 16 in
      let round =
        (do
          dump_row 16 reg irqno
          if ltb next cortex_a9_nirqs
              then print (10 ∷ label) (word next ∷ [])
              else print (10 ∷ []) []
          dump_rows fuel label reg next)
          h in
      if ltb irqno cortex_a9_nirqs then round else pure tt h

  unfoldable pub dump_word : (label : List ℕ) → (off : ℕ) → Io (Unit {0})
  dump_word label off = do
    v ← arm_mmio_read32 b.dev (gid_base b.periph) off
    print_line (label ++ codes "0x%08x") (word v ∷ [])

  -- Each loop gets a round for each interrupt, and one more.
  unfoldable pub cortex_a9_gid_dump_state : Io (Unit {0})
  cortex_a9_gid_dump_state = do
    print_line (codes "=========================================") []
    dump_word (codes "GID_ICDDCR:        ") icddcr
    dump_word (codes "GID_ICDICTR:       ") icdictr
    print_line (codes "GID Interrupt Set enabled IRQs: (1bit-fields)") []
    print (codes "  ICDISERn: ") []
    dump_bytes 97 icdiser 8 0 0
    print_line [] []
    print_line (codes "GID Interrupt Set-Pending Registers: (1bit-fields)") []
    print (codes "  ICDISPRn: ") []
    dump_bytes 97 icdispr 8 0 0
    print_line [] []
    print_line (codes "GID Active Bit Registers: (1bit-fields)") []
    print (codes "  ICDABRn:  ") []
    dump_bytes 97 icdabr 8 0 0
    print_line [] []
    print_line (codes "GID Interrupt Priority Registers: (8bit-fields):") []
    print (codes "  ICDIPRn[0]: ") []
    dump_rows 97 (codes "  ICDIPRn[%d]: ") icdipr 0
    print_line [] []
    print_line (codes "GID Interrupt Configuration Registers: (2bit-fields)") []
    print (codes "  ICDICFRn: ") []
    dump_bytes 97 icdicfr 4 0 0
    print_line (10 ∷ []) []
    print_line (codes "GID Interrupt Processor Targets Registers: (8bit-fields)") []
    print (codes "  ICDIPTRn[0]: ") []
    dump_rows 97 (codes "  ICDIPTRn[%d]: ") icdiptr 0
    print_line [] []
    print_line (codes "GID Status Registers:") []
    dump_word (codes "  PPISR:       ") icppisr
    dump_word (codes "  SPISR[0]:    ") icspisr
    dump_word (codes "  SPISR[1]:    ") (icspisr + 4)

  unfoldable pub dump_gic : (label : List ℕ) → (off : ℕ) → Io ℕ
  dump_gic label off = do
    v ← gic_read_reg b.periph b.dev off
    print_line (label ++ codes "0x%08x") (word v ∷ [])
    pure v

  -- `coreid` is the value of `armv7_coreid()`. The interrupt is acknowledged.
  unfoldable pub cortex_a9_gic_dump_state : (coreid : ℕ) → Io (Unit {0})
  unfolding dump_gic
  cortex_a9_gic_dump_state coreid = do
    print_line (codes "GIC: periph=0x%08x gic=0x%08x")
        (word b.periph ∷ word (gic_base b.periph) ∷ [])
    _ ← dump_gic (codes "  CTLR:    ") ctlr
    val ← dump_gic (codes "  IAR:    ") iar
    let irq = ack_intid val
    let src = ack_cpuid val
    print_line (codes "  --> <%d> got irq=%d cpuid=%d (EOIR val : 0x%08x)")
        (word coreid ∷ word irq ∷ word src ∷ word (ack_value irq src) ∷ [])
    gic_write_reg b.periph eoir (ack_value irq src)
    _ ← dump_gic (codes "  EOIR:   ") eoir
    _ ← dump_gic (codes "  CTRL:   ") ctlr
    _ ← dump_gic (codes "  PMR:    ") pmr
    _ ← dump_gic (codes "  BPR:    ") bpr
    _ ← dump_gic (codes "  RPR:  ") rpr
    _ ← dump_gic (codes "  HPPIR:  ") hppir
    pure tt
