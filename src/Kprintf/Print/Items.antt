-- ===== src/Kprintf/Print/Items.antt =====
-- kprintf.c: formats with any number of texts and conversions.
use osa_kernel_arm_boot_step.Prelude.{
  ℕ, ◌%◌, ◌^◌, ◌≤◌, ◌≡◌, false, some, List, [], ◌∷◌, ◌++◌, length, is_negative, All,
}
use osa_kernel_arm_boot_step.Kprintf.Digits.{Bytes}
use osa_kernel_arm_boot_step.Kprintf.Digits.Value.{value}
use osa_kernel_arm_boot_step.Kprintf.Spec.{signed, Args, word, bytes}
use osa_kernel_arm_boot_step.Kprintf.Number.{minus}
use osa_kernel_arm_boot_step.Kprintf.Print.{run, printed, c_string, take}
use osa_kernel_arm_boot_step.Kprintf.Print.Dumped.{Dumped}
use osa_kernel_arm_boot_step.Kprintf.Print.Text.{IsText}
use osa_kernel_arm_boot_step.Kprintf.Print.Values.{Unsigned, char_of, base_of, abs}

-- A part of a format with its argument: a text, `%o`, `%u` or `%x`, `%d`, `%c`, `%s`,
-- `%D` with the bytes of a buffer and the text between them, and `%%`.
pub data Item : Type 0 where
  plain : Bytes → Item
  unsigned_number : Unsigned → ℕ → Item
  signed_number : ℕ → Item
  character : ℕ → Item
  string : Bytes → Item
  dump : (buffer sep : Bytes) → Item
  percent : Item

abbrev pub format_of : List Item → Bytes
format_of [] = []
format_of (plain t ∷ is) = t ++ format_of is
format_of (unsigned_number r w ∷ is) = b'%' ∷ char_of r ∷ format_of is
format_of (signed_number w ∷ is) = b'%' ∷ b'd' ∷ format_of is
format_of (character w ∷ is) = b'%' ∷ b'c' ∷ format_of is
format_of (string s ∷ is) = b'%' ∷ b's' ∷ format_of is
format_of (dump buffer sep ∷ is) = b'%' ∷ b'D' ∷ format_of is
format_of (percent ∷ is) = b'%' ∷ b'%' ∷ format_of is

abbrev pub args_of : List Item → Args
args_of [] = []
args_of (plain t ∷ is) = args_of is
args_of (unsigned_number r w ∷ is) = word w ∷ args_of is
args_of (signed_number w ∷ is) = word w ∷ args_of is
args_of (character w ∷ is) = word w ∷ args_of is
args_of (string s ∷ is) = bytes (some s) ∷ args_of is
args_of (dump buffer sep ∷ is) = bytes (some buffer) ∷ bytes (some sep) ∷ args_of is
args_of (percent ∷ is) = args_of is

-- A text has no NUL and no percent sign, and a buffer has sixteen bytes.
abbrev pub IsPlain : Item → Type 0
IsPlain (plain t) = All (IsText false) t
IsPlain (unsigned_number r w) = Unit
IsPlain (signed_number w) = Unit
IsPlain (character w) = Unit
IsPlain (string s) = Unit
IsPlain (dump buffer sep) = 16 ≤ length buffer
IsPlain percent = Unit

-- What the part prints: digits that spell an unsigned number, a sign and digits, a byte, a string up
-- to its NUL, and two digits for each of sixteen bytes.
abbrev pub Shows : Item → Bytes → Type 0
Shows (plain t) s = s ≡ t
Shows (unsigned_number r w) s = value (base_of r) 0 s ≡ w % 2 ^ 32
Shows (signed_number w) s =
    (d : Bytes) × (s ≡ minus (is_negative (signed (w % 2 ^ 32))) ++ d)
    × (value 10 0 d ≡ abs (signed (w % 2 ^ 32)))
Shows (character w) s = s ≡ w % 2 ^ 8 ∷ []
Shows (string b) s = s ≡ c_string b
Shows (dump buffer sep) s = Dumped (c_string sep) (take 16 buffer) s
Shows percent s = s ≡ b'%' ∷ []

-- The text is that of the parts, one after the other.
pub data Rendered : List Item → Bytes → Type 0 where
  end : Rendered [] []
  part :
      {i : Item} {is : List Item} (s : Bytes) {t : Bytes}
      → Shows i s
      → Rendered is t
      → Rendered (i ∷ is) (s ++ t)

-- The outer loop on the parts that are left.
abbrev Ran : ℕ → List Item → Bytes → Type 0
Ran fuel is out =
    (t : Bytes) × (run fuel 10 false (format_of is) (args_of is) out [] ≡ printed (out ++ t) [])
    × Rendered is t
