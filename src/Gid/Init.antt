-- ===== src/Gid/Init.antt =====
-- gid.c: every interrupt's fields after `cortex_a9_gid_init`.
use osa_kernel_arm_boot_step.Prelude.{
  ℕ, ◌+◌, ◌/◌, ◌^◌, ◌≤◌, ◌<◌, ◌≡◌, ◌∙◌, Option, none, some, [], ◌∷◌, if◌then◌else◌, arith,
}
use osa_kernel_arm_boot_step.Mmio.{History, write, read, at, Device, written}
use osa_kernel_arm_boot_step.Gid.{
  gid_base, cortex_a9_gid_init, fill, fill_two, cortex_a9_nirqs, icddcr, icdiidr, icdicer, icdicpr,
  icactiver, icdipr, icdiptr, icdicfr,
}
use osa_kernel_arm_boot_step.Gid.Fill.{hits, hits_two, Filled, fill-Filled, fill_two-written}

-- The value that a byte of the distributor was given last.
abbrev pub byte_at : ℕ → ℕ → History → Option ℕ
byte_at periph x h = elim (written 8 (at (gid_base periph) x) h) [ [] ↦ none | v ∷ _ ↦ some v ]

-- The interrupt is disabled, neither pending nor active, and has the default priority; a shared one
-- is level sensitive and goes to the first processor.
pub record IsReset (periph irq : ℕ) (h : History) : Type 0 where
  pub priority : byte_at periph (icdipr + irq) h ≡ some 0x88
  pub cleared_enable : byte_at periph (icdicer + irq / 8) h ≡ some 0xFF
  pub cleared_active : byte_at periph (icactiver + irq / 8) h ≡ some 0xFF
  pub cleared_pending : byte_at periph (icdicpr + irq / 8) h ≡ some 0xFF
  pub target : 32 ≤ irq → byte_at periph (icdiptr + irq) h ≡ some 0x01
  pub config : 32 ≤ irq → byte_at periph (icdicfr + irq / 4) h ≡ some 0x55

module _ (periph : ℕ) (fits : gid_base periph + 0x1000 ≤ 2 ^ 32) where
  -- What the five loops leave, for histories of which each is the last of the one before it.
  module _ (h0 h1 h2 h3 h4 h5 : History) (config : Filled periph fits icdicfr 0x55 4 32 8 h0 h1)
      (priority : Filled periph fits icdipr 0x88 1 0 0 h1 h2)
      (target : Filled periph fits icdiptr 0x01 1 32 32 h2 h3)
      (enable : Filled periph fits icdicer 0xFF 8 0 0 h3 h4)
      (two : (x : ℕ)
        → x < 0x1000
        → written 8 (at (gid_base periph) x) h5 ≡ (
            if hits_two periph fits 0 0 x
            then 0xFF ∷ written 8 (at (gid_base periph) x) h4
            else written 8 (at (gid_base periph) x) h4))
      (irq : ℕ) (small : irq < cortex_a9_nirqs) where
    through :
        (x : ℕ)
        → x < 0x1000
        → byte_at periph x h5 ≡ (
            if hits_two periph fits 0 0 x
            then some 0xFF
            else if hits icdicer 8 0 0 x
            then some 0xFF
            else if hits icdiptr 1 32 32 x
            then some 0x01
            else if hits icdipr 1 0 0 x
            then some 0x88
            else if hits icdicfr 4 32 8 x
            then some 0x55
            else byte_at periph x h0)
    through x hx = ground (arith, two x hx, enable x hx, target x hx, priority x hx, config x hx)

    filled-IsReset : IsReset periph irq h5
    filled-IsReset = record {
      priority = through (icdipr + irq) (omega arith) ∙ ground arith;
      cleared_enable = through (icdicer + irq / 8) (omega arith) ∙ ground arith;
      cleared_active = through (icactiver + irq / 8) (omega arith) ∙ ground arith;
      cleared_pending = through (icdicpr + irq / 8) (omega arith) ∙ ground arith;
      target = λ spi. through (icdiptr + irq) (omega arith) ∙ ground arith;
      config = λ spi. through (icdicfr + irq / 4) (omega arith) ∙ ground arith;
    }

  -- The registers that are set by word before the loops.
  abbrev before_loops : Device → History → History
  before_loops dev h =
      let base = gid_base periph in
      write 32 (at base (icdicfr + 4)) 0x7DC0_0000
      ∷ (write 32 (at base icdicfr) 0xAAAA_AAAA
          ∷ (write 32 (at base icddcr) 0 ∷ (read 32 (at base icdiidr) ∷ h)))

  init_run :
      (dev : Device) (h h1 h2 h3 h4 h5 : History)
      → fill periph 97 icdicfr 0x55 4 32 8 (before_loops dev h) ≡ some (tt, h1)
      → fill periph 97 icdipr 0x88 1 0 0 h1 ≡ some (tt, h2)
      → fill periph 97 icdiptr 0x01 1 32 32 h2 ≡ some (tt, h3)
      → fill periph 97 icdicer 0xFF 8 0 0 h3 ≡ some (tt, h4)
      → fill_two periph 97 0 0 h4 ≡ some (tt, h5)
      → cortex_a9_gid_init periph dev h ≡ some (tt, write 32 (at (gid_base periph) icddcr) 3 ∷ h5)
  unfolding cortex_a9_gid_init
  init_run dev h h1 h2 h3 h4 h5 a b c d e = rw (a, b, c, d, e)

  -- If the distributor's registers do not wrap around the address space, `cortex_a9_gid_init` ends
  -- with the write of 3 to the control register, and before it every one of the 96 interrupts has
  -- been given the fields that `IsReset` lists.
  pub gid_init-IsReset :
      (dev : Device) (h : History)
      → (h' : History) × (cortex_a9_gid_init periph dev h
          ≡ some (tt, write 32 (at (gid_base periph) icddcr) 3 ∷ h'))
        × ((irq : ℕ) → irq < cortex_a9_nirqs → IsReset periph irq h')
  gid_init-IsReset dev h =
      let h0 = before_loops dev h in
      let a =
        fill-Filled periph fits 97 icdicfr 0x55 4 32 8 h0 (omega arith) (omega arith) (omega arith)
          (omega arith) in
      let b =
        fill-Filled periph fits 97 icdipr 0x88 1 0 0 (a.0) (omega arith) (omega arith) (omega arith)
          (omega arith) in
      let c =
        fill-Filled periph fits 97 icdiptr 0x01 1 32 32 (b.0) (omega arith) (omega arith)
          (omega arith) (omega arith) in
      let d =
        fill-Filled periph fits 97 icdicer 0xFF 8 0 0 (c.0) (omega arith) (omega arith)
          (omega arith) (omega arith) in
      let e = fill_two-written periph fits 97 0 0 (d.0) (omega arith) (omega arith) (omega arith) in
      (
        e.0,
        init_run dev h (a.0) (b.0) (c.0) (d.0) (e.0) (a.1) (b.1) (c.1) (d.1) (e.1),
        λ irq small.
            filled-IsReset h0 (a.0) (b.0) (c.0) (d.0) (e.0) (a.2) (b.2) (c.2) (d.2) (e.2) irq small,
      )
