-- ===== src/Kprintf/Digits/Value.antt =====
-- kprintf.c: the digits of `ksprintn` and the number that they stand for.
use osa_kernel_arm_boot_step.Prelude.{
  ℕ, zero, suc, ◌+◌, ◌-◌, ◌*◌, ◌/◌, ◌%◌, ◌^◌, ◌<◌, ◌≤◌, ◌≡◌, ap, ◌∙◌, Bool, true, false, some, [],
  ◌∷◌, ◌==◌, leb, if◌then◌else◌, arith, length, Bool-cases, inl, inr,
}
use native.Mathlib.Nat.{div-add-mod, mod-lt, two-pow-succ}
use osa_kernel_arm_boot_step.Kprintf.Digits.{
  Bytes, hex2ascii, toupper, digit_char, max_digits, ksprintn_loop, ksprintn,
}

-- The digit that a character stands for, in lower or upper case.
abbrev pub digit_of : ℕ → ℕ
digit_of c = if leb c b'9' then c - b'0' else if leb c b'Z' then c - b'A' + 10 else c - b'a' + 10

-- The number that digits spell behind `n`.
abbrev pub value : (base n : ℕ) → Bytes → ℕ
value base n [] = n
value base n (c ∷ s) = value base (n * base + digit_of c) s

-- A digit's character stands for it.
pub digit_of-digit_char : (upper : Bool) (d : ℕ) → d < 36 → digit_of (digit_char upper d) ≡ d
unfolding hex2ascii toupper
digit_of-digit_char true d h = ground arith
digit_of-digit_char false d h = ground arith

div_mod_eq : (num base : ℕ) → num / base * base + num % base ≡ num
div_mod_eq num base = grind (arith, div-add-mod)

div_half : (num base bound : ℕ) → 2 ≤ base → num < bound + bound → num / base < bound
div_half num base bound lo f = grind (arith, div_mod_eq num base)

room_pos : (room q : ℕ) → 0 < q → q < 2 ^ room → 0 < room
room_pos zero q pos less = absurd (omega arith)
room_pos (suc room) q pos less = omega arith

-- A number below 2 ^ k has at most k digits to any base from 2 on.
ksprintn_loop-value :
    (room num base : ℕ) (upper : Bool) (out : Bytes)
    → 2 ≤ base
    → base ≤ 36
    → num < 2 ^ room
    → 0 < room
    → (s : Bytes) × (ksprintn_loop room num base upper out ≡ some s)
      × (value base 0 s ≡ value base num out)
      × (length s ≤ room + length out)
unfolding ksprintn_loop
ksprintn_loop-value zero num base upper out lo hi f p = absurd (omega arith)
ksprintn_loop-value (suc room) num base upper out lo hi f p =
    let d = digit_char upper (num % base) in
    let small : num % base < base = mod-lt num (omega arith) in
    let digit : digit_of d ≡ num % base = digit_of-digit_char upper (num % base) (omega arith) in
    let step : value base (num / base) (d ∷ out) ≡ value base num out =
      ap (λ n. value base n out) (ap (λ x. num / base * base + x) digit ∙ div_mod_eq num base) in
    elim (Bool-cases (num / base == 0)) [
      | inl last ↦
          let q : num / base ≡ 0 = ground arith in (d ∷ out, rw last, rw q at step, omega arith)
      | inr more ↦
          let q : 0 < num / base = ground arith in
          let less : num / base < 2 ^ room =
            div_half num base (2 ^ room) lo (rw two-pow-succ at f) in
          let (s, run, val, len) =
            ksprintn_loop-value room (num / base) base upper (d ∷ out) lo hi less
              (room_pos room (num / base) q less) in
          (s, rw more run, val ∙ step, omega arith)
    ]

pub ksprintn-value :
    (num base : ℕ) (upper : Bool)
    → 2 ≤ base
    → base ≤ 36
    → num < 2 ^ 32
    → (s : Bytes) × (ksprintn num base upper ≡ some s)
      × (value base 0 s ≡ num)
      × (length s ≤ max_digits)
unfolding ksprintn
ksprintn-value num base upper lo hi f =
    let (s, run, val, len) =
      ksprintn_loop-value max_digits num base upper [] lo hi f (omega arith) in
    let pos : (base == 0) ≡ false = ground arith in (s, rw pos run, val, omega arith)
