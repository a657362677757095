-- ===== src/Kprintf/Print/Dumped.antt =====
-- kprintf.c: the text of a dump, `%D`.
use osa_kernel_arm_boot_step.Prelude.{
  ℕ, zero, suc, ◌+◌, ◌*◌, ◌/◌, ◌%◌, ◌^◌, ◌≤◌, ◌≡◌, refl, ap, ◌∙◌, false, some, [], ◌∷◌, ◌++◌, ◌==◌,
  length, arith,
}
use osa_kernel_arm_boot_step.Kprintf.Digits.{Bytes, hex2ascii}
use osa_kernel_arm_boot_step.Kprintf.Digits.Value.{digit_of, value, digit_of-digit_char}
use osa_kernel_arm_boot_step.Kprintf.Spec.{initial, Args, bytes}
use osa_kernel_arm_boot_step.Kprintf.Print.{c_string, take, hex_dump, show_dump, convert}

-- The text has two digits to base 16 that spell each byte, with a text between the bytes.
pub data Dumped (sep : Bytes) : (us text : Bytes) → Type 0 where
  last :
      {u : ℕ} (high low : ℕ)
      → value 16 0 (high ∷ low ∷ []) ≡ u % 2 ^ 8
      → Dumped sep (u ∷ []) (high ∷ low ∷ [])
  next :
      {u v : ℕ} {us t : Bytes} (high low : ℕ)
      → value 16 0 (high ∷ low ∷ []) ≡ u % 2 ^ 8
      → Dumped sep (v ∷ us) t
      → Dumped sep (u ∷ v ∷ us) (high ∷ low ∷ (sep ++ t))

two_digits :
    (high low x y : ℕ)
    → digit_of high ≡ x
    → digit_of low ≡ y
    → value 16 0 (high ∷ low ∷ []) ≡ x * 16 + y
two_digits high low x y h l =
    ap (λ a. (0 * 16 + a) * 16 + digit_of low) h ∙ ap (λ b. (0 * 16 + x) * 16 + b) l ∙ omega arith

byte_digits :
    (u : ℕ) → value 16 0 (hex2ascii (u % 2 ^ 8 / 2 ^ 4) ∷ hex2ascii (u % 2 ^ 4) ∷ []) ≡ u % 2 ^ 8
byte_digits u =
    let high = digit_of-digit_char false (u % 2 ^ 8 / 2 ^ 4) (omega arith) in
    let low = digit_of-digit_char false (u % 2 ^ 4) (omega arith) in
    two_digits (hex2ascii (u % 2 ^ 8 / 2 ^ 4)) (hex2ascii (u % 2 ^ 4)) (u % 2 ^ 8 / 2 ^ 4)
      (u % 2 ^ 4) high low
    ∙ omega arith

pub hex_dump-Dumped :
    (n : ℕ) (buffer sep : Bytes)
    → suc n ≤ length buffer
    → (t : Bytes) × (hex_dump (suc n) buffer sep ≡ some t)
      × Dumped (c_string sep) (take (suc n) buffer) t
unfolding hex_dump
hex_dump-Dumped n [] sep size = absurd (omega (arith, size))
hex_dump-Dumped zero (u ∷ us) sep size =
    let high : ℕ = hex2ascii (u % 2 ^ 8 / 2 ^ 4) in
    let low : ℕ = hex2ascii (u % 2 ^ 4) in (high ∷ low ∷ [], refl, last high low (byte_digits u))
hex_dump-Dumped (suc n) (u ∷ []) sep size = absurd (omega (arith, size))
hex_dump-Dumped (suc n) (u ∷ v ∷ us) sep size =
    let high : ℕ = hex2ascii (u % 2 ^ 8 / 2 ^ 4) in
    let low : ℕ = hex2ascii (u % 2 ^ 4) in
    let (t, e, d) = hex_dump-Dumped n (v ∷ us) sep (omega (arith, size)) in
    let more : (suc n == 0) ≡ false = ground arith in
    (high ∷ low ∷ (c_string sep ++ t), rw (e, more) refl, next high low (byte_digits u) d)

-- Without a width, the dump has sixteen bytes.
pub dump-convert :
    (n : ℕ) (buffer sep : Bytes) (more : Args)
    → 16 ≤ length buffer
    → (t : Bytes) × (convert 10 n b'D' initial (bytes (some buffer) ∷ bytes (some sep) ∷ more)
        ≡ some (t, [], more))
      × Dumped (c_string sep) (take 16 buffer) t
unfolding convert show_dump
dump-convert n buffer sep more size =
    let (t, e, d) = hex_dump-Dumped 15 buffer sep size in (t, rw e refl, d)
