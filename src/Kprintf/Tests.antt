-- ===== src/Kprintf/Tests.antt =====
-- Numbers and formats.
use osa_kernel_arm_boot_step.Prelude.{◌≡◌, refl, true, List, replicate, [], ◌∷◌, ◌++◌, pos, arith}
use osa_kernel_arm_boot_step.Kprintf.Digits.{Bytes}
use osa_kernel_arm_boot_step.Kprintf.Spec.{Spec, initial, is_conversion, flag}
use osa_kernel_arm_boot_step.Kprintf.Number.{layout, minus, prefix}
use osa_kernel_arm_boot_step.Kprintf.Number.Layout.{layout-padding}
use osa_kernel_arm_boot_step.Kprintf.Print.{kprintf, printed}
use osa_kernel_arm_boot_step.Kprintf.Print.Dumped.{Dumped}
use osa_kernel_arm_boot_step.Kprintf.Print.Text.{kprintf-unknown, IsUnknown}
use osa_kernel_arm_boot_step.Kprintf.Print.Values.{hexadecimal}
use osa_kernel_arm_boot_step.Kprintf.Print.Items.{
  Item, dump, plain, unsigned_number, signed_number, string, percent,
}

abbrev wide : Spec
wide = record initial { width = pos 5; padc = b'0' }

layout-padding_example :
    layout wide 10 42 true (b'4' ∷ b'2' ∷ [])
    ≡ minus true ++ (prefix wide 10 42 ++ (b'0' ∷ b'0' ∷ b'4' ∷ b'2' ∷ []))
layout-padding_example = layout-padding wide 5 10 42 true (b'4' ∷ b'2' ∷ []) refl

exclamation-IsUnknown : IsUnknown b'!'
unfolding is_conversion flag
exclamation-IsUnknown = (refl, refl, refl, refl)

kprintf-unknown_example :
    kprintf (b'o' ∷ b'%' ∷ b'!' ∷ b'%' ∷ b'd' ∷ []) []
    ≡ printed (b'o' ∷ b'%' ∷ b'!' ∷ b'%' ∷ b'd' ∷ []) []
kprintf-unknown_example =
    kprintf-unknown (b'o' ∷ []) b'!' (b'%' ∷ b'd' ∷ []) [] ((omega arith, omega arith), tt)
      exclamation-IsUnknown (omega arith, (omega arith, tt))

abbrev buffer : Bytes
buffer = replicate 20 0xFF

-- `%d-th %s%%: 0x%x%D`
abbrev items : List Item
items =
    signed_number 0xFFFFFFFE
    ∷ plain (b'-' ∷ b't' ∷ b'h' ∷ b' ' ∷ [])
    ∷ string (b'o' ∷ b'k' ∷ 0 ∷ b'!' ∷ [])
    ∷ percent
    ∷ plain (b':' ∷ b' ' ∷ b'0' ∷ b'x' ∷ [])
    ∷ unsigned_number hexadecimal 255
    ∷ dump buffer (b' ' ∷ [])
    ∷ []
