-- ===== src/Kprintf/Number/Layout.antt =====
-- kprintf.c: the padding of a number.
use osa_kernel_arm_boot_step.Prelude.{
  ℕ, zero, suc, ◌+◌, ◌-◌, ◌≡◌, refl, Bool, true, false, ◌++◌, ◌==◌, if◌then◌else◌, ℤ, pos, length,
  replicate, arith, Bool-cases, inl, inr, append-nil,
}
use osa_kernel_arm_boot_step.Kprintf.Digits.{Bytes}
use osa_kernel_arm_boot_step.Kprintf.Spec.{Spec}
use osa_kernel_arm_boot_step.Kprintf.Number.{pad_stage, layout, prefix, minus}

-- The first place that is reached pads to the width.
pad_first : (tmp w : ℕ) → (pad_stage true tmp (pos w)).0 ≡ w - tmp
unfolding pad_stage
pad_first tmp zero = ground arith
pad_first tmp (suc w) = ground arith

-- A later one finds no width left.
pad_again : (tmp w : ℕ) → (pad_stage true tmp (pad_stage true tmp (pos w)).1).0 ≡ 0
unfolding pad_stage
pad_again tmp zero = ground arith
pad_again tmp (suc w) = ground arith

pad_off : (tmp : ℕ) (width : ℤ) → pad_stage false tmp width ≡ (0, width)
unfolding pad_stage
pad_off tmp width = refl

module _ (s : Spec) (w base num : ℕ) (neg : Bool) (digits : Bytes) where
  abbrev pub body : ℕ
  body = length digits + length (prefix s base num) + length (minus neg)

  -- If the width is not negative, the pad characters stand behind the text if it is adjusted to the left, else in front of it, and
  -- zeros between the sign and the digits; they fill the width up, and there are none if the text
  -- is wider.
  pub layout-padding :
      s.width ≡ pos w
      → layout s base num neg digits ≡ (
          if s.ladjust
          then minus neg ++ (prefix s base num ++ (digits ++ replicate (w - body) s.padc))
          else if s.padc == b'0'
          then minus neg ++ (prefix s base num ++ (replicate (w - body) s.padc ++ digits))
          else replicate (w - body) s.padc ++ (minus neg ++ (prefix s base num ++ digits)))
  unfolding layout
  layout-padding e = elim (Bool-cases s.ladjust) [
    | inl left ↦ simp (left, e, pad_off, pad_first)
    | inr right ↦ elim (Bool-cases (s.padc == b'0')) [
      | inl zeros ↦ simp (right, zeros, e, pad_off, pad_first, append-nil)
      | inr other ↦ simp (right, other, e, pad_off, pad_first, pad_again, append-nil)
    ]
  ]
