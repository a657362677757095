-- ===== src/Kprintf/Spec.antt =====
-- kprintf.c: the state of one conversion of `kvprintf`, its arguments, and the loop of `reswitch`
-- over the flags, the width and the precision.
use osa_kernel_arm_boot_step.Prelude.{
  ℕ, zero, suc, ◌+◌, ◌-◌, ◌*◌, ◌^◌, Bool, true, false, not, ◌&&◌, ◌||◌, Option, none, some, List,
  [], ◌∷◌, ◌++◌, ltb, leb, ◌==◌, if◌then◌else◌, ℤ, pos, negsuc, neg, is_negative,
}
use osa_kernel_arm_boot_step.Kprintf.Digits.{Bytes}

-- What `va_arg` can give: a word of 32 bits, one of 64, or a pointer to bytes, `none` for NULL.
pub data Arg : Type 0 where
  word : ℕ → Arg
  quad : ℕ → Arg
  bytes : Option Bytes → Arg

abbrev pub Args : Type 0
Args = List Arg

pub record Spec : Type 0 where
  pub padc : ℕ
  pub width : ℤ
  pub dwidth : ℤ
  pub dot : Bool
  pub sharpflag : Bool
  pub sign : Bool
  pub ladjust : Bool
  pub upper : Bool
  pub cflag : Bool
  pub hflag : Bool
  pub jflag : Bool
  pub lflag : Bool
  pub qflag : Bool
  pub tflag : Bool
  pub zflag : Bool

abbrev pub initial : Spec
initial = record {
  padc = b' ';
  width = pos 0;
  dwidth = pos 0;
  dot = false;
  sharpflag = false;
  sign = false;
  ladjust = false;
  upper = false;
  cflag = false;
  hflag = false;
  jflag = false;
  lflag = false;
  qflag = false;
  tflag = false;
  zflag = false;
}

-- A word as the `int` that it stands for.
abbrev pub signed : ℕ → ℤ
signed w = if ltb w (2 ^ 31) then pos w else negsuc (2 ^ 32 - 1 - w)

-- What the loop ends with: a conversion character, the character that is none, or a read of an
-- argument that is not there.
pub data Parsed : Type 0 where
  conversion : (c : ℕ) → Spec → (rest : Bytes) → Args → Parsed
  unknown : (seen rest : Bytes) → Parsed
  past_end : Parsed
  bad_arg : Parsed
  out_of_fuel : Parsed

abbrev pub is_digit : ℕ → Bool
is_digit c = leb b'0' c && leb c b'9'

-- `for (n = 0;; ++fmt) { n = n * 10 + ch - '0'; ch = *fmt; ... }`, once the first digit is read:
-- the number, the digits that were passed, and the rest of the format
unfoldable pub read_number : ℕ → (passed fmt : Bytes) → ℕ × Bytes × Bytes
read_number n passed [] = (n, passed, [])
read_number n passed (c ∷ s) =
    let longer = read_number (n * 10 + (c - b'0')) (passed ++ c ∷ []) s in
    if is_digit c then longer else (n, passed, c ∷ s)

abbrev pub set_number : ℕ → Spec → Spec
set_number n s = if s.dot then record s { dwidth = pos n } else record s { width = pos n }

-- `case '*'`: an argument for the width, or for the precision behind a dot
abbrev pub star : ℕ → Spec → Spec
star w s =
    let v = signed w in
    if s.dot
    then record s { dwidth = v }
    else if is_negative v
    then record s { width = neg v; ladjust = not s.ladjust }
    else record s { width = v }

-- The flags that take one character; `none` for any other.
unfoldable pub flag : ℕ → Spec → Option Spec
flag c s =
    if c == b'.'
    then some (record s { dot = true })
    else if c == b'#'
    then some (record s { sharpflag = true })
    else if c == b'+'
    then some (record s { sign = true })
    else if c == b'-'
    then some (record s { ladjust = true })
    else if (c == b'0') && not s.dot
    then some (record s { padc = b'0' })
    else if c == b'h'
    then some
        (if s.hflag then record s { hflag = false; cflag = true } else record s { hflag = true })
    else if c == b'j'
    then some (record s { jflag = true })
    else if c == b'l'
    then some
        (if s.lflag then record s { lflag = false; qflag = true } else record s { lflag = true })
    else if c == b'q'
    then some (record s { qflag = true })
    else if c == b't'
    then some (record s { tflag = true })
    else if c == b'z'
    then some (record s { zflag = true })
    else none

-- The characters that end the loop with a conversion: % b c D d i n o p r s u X x y
unfoldable pub is_conversion : ℕ → Bool
is_conversion c =
    (c == b'%')
    || (c == b'b')
    || (c == b'c')
    || (c == b'D')
    || (c == b'd')
    || (c == b'i')
    || (c == b'n')
    || (c == b'o')
    || (c == b'p')
    || (c == b'r')
    || (c == b's')
    || (c == b'u')
    || (c == b'X')
    || (c == b'x')
    || (c == b'y')

-- `seen` is the text from the percent sign on. A NUL is a character like any other here, and the
-- one behind the last character of the format is not in the list.
unfoldable pub reswitch : ℕ → Spec → (seen fmt : Bytes) → Args → Parsed
reswitch zero s seen fmt args = out_of_fuel
reswitch (suc fuel) s seen [] args = past_end
reswitch (suc fuel) s seen (c ∷ fmt) args =
    let seen' = seen ++ c ∷ [] in
    let after_star : Parsed = elim args [
      | [] ↦ bad_arg
      | a ∷ more ↦ elim a [
        | word w ↦ reswitch fuel (star w s) seen' fmt more
        | quad q ↦ bad_arg
        | bytes b ↦ bad_arg
      ]
    ] in
    let number = read_number (c - b'0') [] fmt in
    let after_number : Parsed =
      reswitch fuel (set_number number.0 s) (seen' ++ number.1) number.2 args in
    let after_flag : Parsed = elim (flag c s) [
      | none ↦ if is_conversion c then conversion c s fmt args else unknown seen' fmt
      | some t ↦ reswitch fuel t seen' fmt args
    ] in
    if c == b'*'
    then after_star
    else if is_digit c && not ((c == b'0') && not s.dot)
    then after_number
    else after_flag
