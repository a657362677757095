-- ===== src/Gid/Bits.antt =====
-- gid.c: the address and the value of an interrupt's bit, by byte and by word.
use native.Mathlib.Nat.{mod-eq_of_lt, pow-le-pow_right}
use osa_kernel_arm_boot_step.Prelude.{
  ℕ, ◌+◌, ◌*◌, ◌%◌, ◌^◌, ◌<◌, ◌≤◌, ◌≡◌, refl, ap, some, ◌∷◌, arith,
}
use osa_kernel_arm_boot_step.Mmio.{History, write, at}
use osa_kernel_arm_boot_step.Gid.{
  icdiser, icdicer, gid_base, cortex_a9_gid_enable_irq, cortex_a9_gid_disable_irq, irq_off,
  irq_off8,
}

-- A single bit is not cut off by the width of the write.
pow_fits8 : (b : ℕ) → b < 8 → 2 ^ b % 2 ^ 8 ≡ 2 ^ b
pow_fits8 b h =
    let small : 2 ^ b ≤ 2 ^ 7 = pow-le-pow_right (omega arith) {j = 7} (omega arith) in
    mod-eq_of_lt (omega arith)

pow_fits32 : (b : ℕ) → b < 32 → 2 ^ b % 2 ^ 32 ≡ 2 ^ b
pow_fits32 b h =
    let small : 2 ^ b ≤ 2 ^ 31 = pow-le-pow_right (omega arith) {j = 31} (omega arith) in
    mod-eq_of_lt (omega arith)

-- The access is one write of a word with one bit set, bit `irq` of the array of registers at `reg`.
abbrev pub WritesBit : (width periph reg irq : ℕ) → History → History → Type 0
WritesBit w periph reg irq h h' =
    (off : ℕ) × (b : ℕ) × (h' ≡ write w (at (gid_base periph) (reg + off)) (2 ^ b) ∷ h)
    × (b < w)
    × (8 * off + b ≡ irq)

module _ (periph irq : ℕ) (h : History) where
  -- Enabling an interrupt writes the one byte of the set-enable registers whose only set bit is the
  -- interrupt's, and disabling it the one word of the clear-enable registers.
  pub enable_irq-disable_irq :
      ((s : History) × (cortex_a9_gid_enable_irq periph irq h ≡ some (tt, s))
        × WritesBit 8 periph icdiser irq h s)
      × ((c : History) × (cortex_a9_gid_disable_irq periph irq h ≡ some (tt, c))
          × WritesBit 32 periph icdicer irq h c)
  unfolding cortex_a9_gid_enable_irq cortex_a9_gid_disable_irq
  enable_irq-disable_irq = (
    (
      _,
      refl,
      (
        irq_off8 irq,
        irq % 8,
        ap (λ v. write 8 (at (gid_base periph) (icdiser + irq_off8 irq)) v ∷ h)
            (pow_fits8 (irq % 8) (omega arith)),
        omega arith,
        omega arith,
      ),
    ),
    (
      _,
      refl,
      (
        irq_off irq,
        irq % 32,
        ap (λ v. write 32 (at (gid_base periph) (icdicer + irq_off irq)) v ∷ h)
            (pow_fits32 (irq % 32) (omega arith)),
        omega arith,
        omega arith,
      ),
    ),
  )
