-- ===== src/Kprintf/Number.antt =====
-- kprintf.c: the code behind the labels `handle_nosign`, `handle_sign` and `number` of `kvprintf`.
pub mod Layout
use osa_kernel_arm_boot_step.Prelude.{
  ℕ, zero, suc, ◌+◌, ◌-◌, ◌%◌, ◌^◌, Bool, true, false, not, ◌&&◌, ◌||◌, Option, none, some, List,
  [], ◌∷◌, ◌++◌, ltb, leb, ◌==◌, if◌then◌else◌, ℤ, pos, negsuc, ◌-ℤ◌, to_nat, is_zero, length,
  replicate,
}
use osa_kernel_arm_boot_step.Kprintf.Digits.{Bytes, ksprintn}
use osa_kernel_arm_boot_step.Kprintf.Spec.{Spec, Arg, word, quad, bytes, Args}

-- One of the three places that pad: `if (on && width && (width -= tmp) > 0) while (width--) ...`.
-- The result is the number of pad characters, and the width left; a loop leaves -1.
pub pad_stage : Bool → (tmp : ℕ) → ℤ → ℕ × ℤ
pad_stage on tmp width =
    let left = width -ℤ tmp in
    if on && not (is_zero width)
    then if ltb 0 (to_nat left) then (to_nat left, negsuc 0) else (0, left)
    else (0, width)

-- `0` or `0x` behind `#`
abbrev pub prefix : Spec → (base num : ℕ) → Bytes
prefix s base num =
    if s.sharpflag && not (num == 0)
    then if base == 8 then b'0' ∷ [] else if base == 16 then b'0' ∷ b'x' ∷ [] else []
    else []

abbrev pub minus : Bool → Bytes
minus neg = if neg then b'-' ∷ [] else []

-- The text of a number whose digits are known.
pub layout : Spec → (base num : ℕ) → (neg : Bool) → (digits : Bytes) → Bytes
layout s base num neg digits =
    let tmp = length digits + length (prefix s base num) + length (minus neg) in
    let a = pad_stage (not s.ladjust && not (s.padc == b'0')) tmp s.width in
    let b = pad_stage (not s.ladjust) tmp a.1 in
    let c = pad_stage s.ladjust tmp b.1 in
    replicate a.0 s.padc
    ++ (minus neg
        ++ (prefix s base num ++ (replicate b.0 s.padc ++ (digits ++ replicate c.0 s.padc))))

-- `sign && (intmax_t)num < 0`
abbrev pub is_neg : Spec → ℕ → Bool
is_neg s num = s.sign && leb (2 ^ 31) num

abbrev pub magnitude : Spec → ℕ → ℕ
magnitude s num = if is_neg s num then 2 ^ 32 - num else num

-- The label `number`.
unfoldable pub number : Spec → (base num : ℕ) → Option Bytes
unfolding layout pad_stage ksprintn
number s base num =
    let n = magnitude s num in
    elim (ksprintn n base s.upper) [
      | none ↦ none
      | some digits ↦ some (layout s base n (is_neg s num) digits)
    ]

-- A value of `w` bits extended to 32 with its sign.
abbrev pub sign_extend : (w : ℕ) → ℕ → ℕ
sign_extend w v =
    let low : ℕ = v % 2 ^ w in if ltb low (2 ^ (w - 1)) then low else low + 2 ^ 32 - 2 ^ w

-- `va_arg` for a type of 32 bits, cut by a cast to `h` or `c` where these flags are read
abbrev pub take_word : (ℕ → ℕ) → Args → Option (ℕ × Args)
take_word cast (word w ∷ more) = some (cast (w % 2 ^ 32), more)
take_word cast _ = none

abbrev pub take_quad : Args → Option (ℕ × Args)
take_quad (quad q ∷ more) = some (q % 2 ^ 32, more)
take_quad _ = none

-- `char` is unsigned on ARM, so that both casts of `c` are the same.
-- The labels `handle_nosign` and `handle_sign`: the argument as `num`, of 32 bits.
unfoldable pub get_num : Spec → Args → Option (ℕ × Args)
get_num s args =
    let plain = take_word (λ w. w) args in
    let short = take_word (λ w. if s.sign then sign_extend 16 w else w % 2 ^ 16) args in
    let byte = take_word (λ w. w % 2 ^ 8) args in
    if s.jflag
    then plain
    else if s.qflag
    then take_quad args
    else if s.tflag || s.lflag || s.zflag
    then plain
    else if s.hflag
    then short
    else if s.cflag
    then byte
    else plain
