-- ===== src/Gid/Fill.antt =====
-- The registers after `cortex_a9_gid_init`, for a base at which the addresses do not wrap around.
use osa_kernel_arm_boot_step.Prelude.{
  ℕ, zero, suc, ◌+◌, ◌-◌, ◌*◌, ◌%◌, ◌^◌, ◌≤◌, ◌<◌, ◌≡◌, ap, Bool, false, ◌&&◌, some, ◌∷◌, ◌==◌,
  arith, ltb, leb, ltb→lt, ◌||◌, if◌then◌else◌, Bool-cases, inl, inr,
}
use native.Mathlib.Nat.{mod-eq_of_lt}
use osa_kernel_arm_boot_step.Mmio.{History, write, at, at-eq, written}
use osa_kernel_arm_boot_step.Gid.{gid_base, icactiver, icdicpr, fill, fill_two, cortex_a9_nirqs}

-- The loop reaches the byte at offset `x` of the distributor.
abbrev pub hits : (reg step irqno offset x : ℕ) → Bool
hits reg step irqno offset x =
    leb (reg + offset) x && ltb (irqno + (x - (reg + offset)) * step) cortex_a9_nirqs

mul_pred : (d step : ℕ) → 0 < d → d * step ≡ step + (d - 1) * step
mul_pred zero step h = absurd (omega arith)
mul_pred (suc d) step h = let e : suc d - 1 ≡ d = omega arith in rw e (omega arith)

-- One round ahead of the others.
hits_step :
    (reg step irqno offset x : ℕ)
    → 0 < step
    → irqno < cortex_a9_nirqs
    → hits reg step irqno offset x
      ≡ ((reg + offset == x) || hits reg step (irqno + step) (offset + 1) x)
hits_step reg step irqno offset x s more = elim (Bool-cases (ltb (reg + offset) x)) [
  | inl above ↦
      let a : reg + offset < x = ltb→lt _ _ above in
      let e : x - (reg + (offset + 1)) ≡ x - (reg + offset) - 1 = omega arith in
      rw e (ground (arith, mul_pred (x - (reg + offset)) step (omega arith)))
  | inr below ↦ let e : x - (reg + offset) ≡ 0 = ground arith in rw e (ground arith)
]

hits_done :
    (reg step irqno offset x : ℕ)
    → ltb irqno cortex_a9_nirqs ≡ false
    → hits reg step irqno offset x ≡ false
hits_done reg step irqno offset x done = ground arith

module _ (periph : ℕ) (fits : gid_base periph + 0x1000 ≤ 2 ^ 32) where
  -- The newest value at each byte of the distributor, after one byte write.
  pub written-write :
      (x y v : ℕ) (h : History)
      → x < 0x1000
      → y < 0x1000
      → written 8 (at (gid_base periph) x) (write 8 (at (gid_base periph) y) v ∷ h) ≡ (
          if y == x
          then v ∷ written 8 (at (gid_base periph) x) h
          else written 8 (at (gid_base periph) x) h)
  unfolding written
  written-write x y v h hx hy =
      ap
        (λ b.
          if b
          then v ∷ written 8 (at (gid_base periph) x) h
          else written 8 (at (gid_base periph) x) h)
        (at-eq (gid_base periph) 0x1000 x y fits hx hy)

  abbrev pub Filled : (reg val step irqno offset : ℕ) → History → History → Type 0
  Filled reg val step irqno offset h h' =
      (x : ℕ)
      → x < 0x1000
      → written 8 (at (gid_base periph) x) h' ≡ (
          if hits reg step irqno offset x
          then val ∷ written 8 (at (gid_base periph) x) h
          else written 8 (at (gid_base periph) x) h)

  pub fill-Filled :
      (fuel reg val step irqno offset : ℕ) (h : History)
      → 0 < step
      → cortex_a9_nirqs - irqno < fuel
      → val < 2 ^ 8
      → reg + offset + fuel < 0x1000
      → (h' : History) × (fill periph fuel reg val step irqno offset h ≡ some (tt, h'))
        × Filled reg val step irqno offset h h'
  unfolding fill
  fill-Filled zero reg val step irqno offset h s f v r = absurd (omega arith)
  fill-Filled (suc fuel) reg val step irqno offset h s f v r =
      elim (Bool-cases (ltb irqno cortex_a9_nirqs)) [
        | inl more ↦
            let less : irqno < cortex_a9_nirqs = ltb→lt _ _ more in
            let byte : val % 2 ^ 8 ≡ val = mod-eq_of_lt v in
            let (h', run, values) =
              fill-Filled fuel reg val step (irqno + step) (offset + 1)
                (write 8 (at (gid_base periph) (reg + offset)) val ∷ h) s (omega arith) v
                (omega arith) in
            (
              h',
              rw (more, byte) run,
              λ x hx. ground (
                arith,
                values x hx,
                written-write x (reg + offset) val h hx (omega arith),
                hits_step reg step irqno offset x s less,
              ),
            )
        | inr done ↦ (h, rw done, λ x hx. rw (hits_done reg step irqno offset x done))
      ]

  -- The two registers of the last loop are apart, so that a byte is reached in one of them.
  abbrev pub hits_two : (irqno offset x : ℕ) → Bool
  hits_two irqno offset x = hits icactiver 8 irqno offset x || hits icdicpr 8 irqno offset x

  pub fill_two-written :
      (fuel irqno offset : ℕ) (h : History)
      → cortex_a9_nirqs - irqno < fuel
      → irqno ≡ offset * 8
      → offset ≤ 12
      → (h' : History) × (fill_two periph fuel irqno offset h ≡ some (tt, h'))
        × ((x : ℕ)
            → x < 0x1000
            → written 8 (at (gid_base periph) x) h' ≡ (
                if hits_two irqno offset x
                then 0xFF ∷ written 8 (at (gid_base periph) x) h
                else written 8 (at (gid_base periph) x) h))
  unfolding fill_two
  fill_two-written zero irqno offset h f e b = absurd (omega arith)
  fill_two-written (suc fuel) irqno offset h f e b = elim (Bool-cases (ltb irqno cortex_a9_nirqs)) [
    | inl more ↦
        let less : irqno < cortex_a9_nirqs = ltb→lt _ _ more in
        let first = write 8 (at (gid_base periph) (icactiver + offset)) 0xFF ∷ h in
        let (h', run, values) =
          fill_two-written fuel (irqno + 8) (offset + 1)
            (write 8 (at (gid_base periph) (icdicpr + offset)) 0xFF ∷ first) (omega arith)
            (omega arith) (omega arith) in
        (
          h',
          rw more run,
          λ x hx. ground (
            arith,
            values x hx,
            written-write x (icdicpr + offset) 0xFF first hx (omega arith),
            written-write x (icactiver + offset) 0xFF h hx (omega arith),
            hits_step icactiver 8 irqno offset x (omega arith) less,
            hits_step icdicpr 8 irqno offset x (omega arith) less,
          ),
        )
    | inr done ↦ (
      h,
      rw done,
      λ x hx.
          rw (hits_done icactiver 8 irqno offset x done, hits_done icdicpr 8 irqno offset x done),
    )
  ]
