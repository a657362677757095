-- ===== src/Kprintf/Print/Values.antt =====
-- kprintf.c: the text of a number and of a string, from the argument.
use osa_kernel_arm_boot_step.Prelude.{
  ℕ, ◌-◌, ◌%◌, ◌^◌, ◌<◌, ◌≤◌, ◌≡◌, refl, ap, ◌∙◌, Bool, false, some, [], ◌∷◌, ◌++◌, leb, ◌==◌,
  length, arith, suc, ℤ, pos, negsuc, ◌-ℤ◌, to_nat, is_negative, All,
}
use osa_kernel_arm_boot_step.Kprintf.Digits.{Bytes, ksprintn}
use osa_kernel_arm_boot_step.Kprintf.Digits.Value.{value, ksprintn-value}
use osa_kernel_arm_boot_step.Kprintf.Spec.{
  Spec, initial, signed, Args, word, bytes, is_conversion, flag,
}
use osa_kernel_arm_boot_step.Kprintf.Number.{number, get_num, minus, is_neg, magnitude, layout}
use osa_kernel_arm_boot_step.Kprintf.Number.Layout.{layout-padding, body}
use osa_kernel_arm_boot_step.Kprintf.Print.{
  printed, kprintf, convert, numeric, nosign, withsign, c_string, show_string, string_text,
}
use osa_kernel_arm_boot_step.Kprintf.Print.Text.{IsText}
use osa_kernel_arm_boot_step.Kprintf.Print.Conversions.{IsConversion, kprintf-conversion}

-- The conversions of unsigned numbers, their characters and their bases.
pub data Unsigned : Type 0 where
  octal decimal hexadecimal : Unsigned

abbrev pub char_of : Unsigned → ℕ
char_of octal = b'o'
char_of decimal = b'u'
char_of hexadecimal = b'x'

abbrev pub base_of : Unsigned → ℕ
base_of octal = 8
base_of decimal = 10
base_of hexadecimal = 16

layout-plain :
    (s : Spec) (base num : ℕ) (neg : Bool) (d : Bytes)
    → s.width ≡ pos 0
    → s.ladjust ≡ false
    → s.sharpflag ≡ false
    → (s.padc == b'0') ≡ false
    → layout s base num neg d ≡ minus neg ++ d
layout-plain s base num neg d wi la sh pa =
    let none_left : 0 - body s 0 base num neg d ≡ 0 = omega arith in
    layout-padding s 0 base num neg d wi ∙ rw (la, pa, none_left, sh) refl

number-some :
    (s : Spec) (base num : ℕ) (d : Bytes)
    → s.width ≡ pos 0
    → s.ladjust ≡ false
    → s.sharpflag ≡ false
    → (s.padc == b'0') ≡ false
    → ksprintn (magnitude s num) base s.upper ≡ some d
    → number s base num ≡ some (minus (is_neg s num) ++ d)
unfolding number
number-some s base num d wi la sh pa e =
    rw (number, e) (ap some (layout-plain s base (magnitude s num) (is_neg s num) d wi la sh pa))

numeric-some :
    (s : Spec) (base w num : ℕ) (more : Args) (t : Bytes)
    → get_num s (word w ∷ more) ≡ some (num, more)
    → number s base num ≡ some t
    → numeric s base (word w ∷ more) ≡ some (t, [], more)
unfolding numeric
numeric-some s base w num more t g n = rw (numeric, g, n) refl

unsigned-numeric :
    (r : Unsigned) (n : ℕ) (args : Args)
    → convert 10 n (char_of r) initial args ≡ numeric (nosign initial) (base_of r) args
unfolding convert
unsigned-numeric octal n args = refl
unsigned-numeric decimal n args = refl
unsigned-numeric hexadecimal n args = refl

pub unsigned-IsConversion : (r : Unsigned) → IsConversion (char_of r)
unfolding is_conversion flag
unsigned-IsConversion octal = (refl, refl, refl, refl)
unsigned-IsConversion decimal = (refl, refl, refl, refl)
unsigned-IsConversion hexadecimal = (refl, refl, refl, refl)

base_of-bounds : (r : Unsigned) → (2 ≤ base_of r) × (base_of r ≤ 36)
base_of-bounds octal = omega arith
base_of-bounds decimal = omega arith
base_of-bounds hexadecimal = omega arith

-- The digits that the conversion of an unsigned number makes of it.
pub unsigned-convert :
    (r : Unsigned) (n w : ℕ) (more : Args)
    → (d : Bytes) × (convert 10 n (char_of r) initial (word w ∷ more) ≡ some (d, [], more))
      × (value (base_of r) 0 d ≡ w % 2 ^ 32)
unfolding get_num
unsigned-convert r n w more =
    let (lo, hi) = base_of-bounds r in
    let (d, run, val, len) = ksprintn-value (w % 2 ^ 32) (base_of r) false lo hi (omega arith) in
    let text =
      numeric-some (nosign initial) (base_of r) w (w % 2 ^ 32) more d refl
        (number-some (nosign initial) (base_of r) (w % 2 ^ 32) d refl refl refl refl run) in
    (d, unsigned-numeric r n (word w ∷ more) ∙ text, val)

-- Between texts without NUL and percent sign, `%o`, `%u` and `%x` print digits that spell, in base
-- 8, 10 and 16, the argument as an unsigned number of 32 bits.
pub kprintf-unsigned :
    (r : Unsigned) (before after : Bytes) (w : ℕ) (more : Args)
    → All (IsText false) before
    → All (IsText false) after
    → (d : Bytes) × (kprintf (before ++ b'%' ∷ char_of r ∷ after) (word w ∷ more)
        ≡ printed (before ++ (d ++ after)) [])
      × (value (base_of r) 0 d ≡ w % 2 ^ 32)
kprintf-unsigned r before after w more hb ha =
    let (d, text, val) = unsigned-convert r (length before) w more in
    (
      d,
      kprintf-conversion before (char_of r) after d (word w ∷ more) more hb
          (unsigned-IsConversion r) ha text,
      val,
    )

-- The magnitude of an integer.
abbrev pub abs : ℤ → ℕ
abs (pos n) = n
abs (negsuc n) = suc n

signed-sign : (v : ℕ) → leb (2 ^ 31) v ≡ is_negative (signed v)
signed-sign v = ground arith

signed-abs : (v : ℕ) → v < 2 ^ 32 → magnitude (withsign initial) v ≡ abs (signed v)
signed-abs v h = ground arith

signed-numeric :
    (n : ℕ) (args : Args) → convert 10 n b'd' initial args ≡ numeric (withsign initial) 10 args
unfolding convert
signed-numeric n args = refl

-- The sign and the digits that the conversion of a signed number makes of it.
pub signed-convert :
    (n w : ℕ) (more : Args)
    → (d : Bytes) × (convert 10 n b'd' initial (word w ∷ more)
        ≡ some (minus (is_negative (signed (w % 2 ^ 32))) ++ d, [], more))
      × (value 10 0 d ≡ abs (signed (w % 2 ^ 32)))
unfolding get_num
signed-convert n w more =
    let v : ℕ = w % 2 ^ 32 in
    let size = signed-abs v (omega arith) in
    let (d, run, val, len) =
      ksprintn-value (magnitude (withsign initial) v) 10 false (omega arith) (omega arith)
        (ground arith) in
    let text =
      numeric-some (withsign initial) 10 w v more (minus (leb (2 ^ 31) v) ++ d) refl
        (number-some (withsign initial) 10 v d refl refl refl refl run) in
    (
      d,
      signed-numeric n (word w ∷ more)
          ∙ text
          ∙ ap (λ b. some (minus b ++ d, [], more)) (signed-sign v),
      val ∙ size,
    )

pub signed-IsConversion : IsConversion b'd'
unfolding is_conversion flag
signed-IsConversion = (refl, refl, refl, refl)

-- Between texts without NUL and percent sign, `%d` prints the argument as a signed number of 32
-- bits: a minus sign if it is negative, and digits that spell its magnitude in base 10.
pub kprintf-signed :
    (before after : Bytes) (w : ℕ) (more : Args)
    → All (IsText false) before
    → All (IsText false) after
    → (d : Bytes) × (kprintf (before ++ b'%' ∷ b'd' ∷ after) (word w ∷ more)
        ≡ printed (before ++ ((minus (is_negative (signed (w % 2 ^ 32))) ++ d) ++ after)) [])
      × (value 10 0 d ≡ abs (signed (w % 2 ^ 32)))
kprintf-signed before after w more hb ha =
    let (d, text, val) = signed-convert (length before) w more in
    (
      d,
      kprintf-conversion before b'd' after (minus (is_negative (signed (w % 2 ^ 32))) ++ d)
          (word w ∷ more) more hb signed-IsConversion ha text,
      val,
    )

no_width : (n : ℕ) → to_nat (pos 0 -ℤ n) ≡ 0
no_width n = ground arith

string-text : (s : Bytes) → string_text initial (some s) ≡ c_string s
unfolding string_text
string-text s = rw (string_text, no_width (length (c_string s))) refl

pub string-convert :
    (n : ℕ) (s : Bytes) (more : Args)
    → convert 10 n b's' initial (bytes (some s) ∷ more) ≡ some (c_string s, [], more)
unfolding convert show_string
string-convert n s more = ap (λ (t : Bytes). some (t, [], more)) (string-text s)

-- Between texts without NUL and percent sign, `%s` prints a string up to its NUL.
pub kprintf-string :
    (before after s : Bytes) (more : Args)
    → All (IsText false) before
    → All (IsText false) after
    → kprintf (before ++ b'%' ∷ b's' ∷ after) (bytes (some s) ∷ more)
      ≡ printed (before ++ (c_string s ++ after)) []
unfolding is_conversion flag
kprintf-string before after s more hb ha =
    kprintf-conversion before b's' after (c_string s) (bytes (some s) ∷ more) more hb
      (refl, refl, refl, refl) ha (string-convert (length before) s more)
