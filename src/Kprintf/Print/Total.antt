-- ===== src/Kprintf/Print/Total.antt =====
-- kprintf.c: the rounds of the loops over the format.
use osa_kernel_arm_boot_step.Prelude.{ℕ, ◌<◌, ◌≤◌, length, arith}
use osa_kernel_arm_boot_step.Kprintf.Spec
use osa_kernel_arm_boot_step.Kprintf.Spec.{
  Spec, Arg, Parsed, conversion, unknown, past_end, bad_arg,
}
use osa_kernel_arm_boot_step.Kprintf.Print.{out_of_fuel}

-- The rest of the format is shorter than `n`, where there is one.
abbrev Shorter : ℕ → Parsed → Type 0
Shorter n (conversion c s rest args) = length rest < n
Shorter n (unknown seen rest) = length rest < n
Shorter n past_end = Unit
Shorter n bad_arg = Unit
Shorter n Spec.out_of_fuel = ⊥

Shorter-mono : (n k : ℕ) (p : Parsed) → n ≤ k → Shorter n p → Shorter k p
Shorter-mono n k (conversion c s rest args) h q = omega arith
Shorter-mono n k (unknown seen rest) h q = omega arith
Shorter-mono n k past_end h q = tt
Shorter-mono n k bad_arg h q = tt
Shorter-mono n k Spec.out_of_fuel h q = q
