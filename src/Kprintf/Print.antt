-- ===== src/Kprintf/Print.antt =====
-- kprintf.c: the conversions of `kvprintf`, and its loop over the format. `func` is given, as in
-- `kprintf`, and gets the text in order. Strings are lists of bytes; a NUL ends one, as its end does.
pub mod Text
pub mod Total
pub mod Conversions
pub mod Values
pub mod Dumped
pub mod Items
use osa_kernel_arm_boot_step.Prelude.{
  ℕ, zero, suc, ◌+◌, ◌-◌, ◌/◌, ◌%◌, ◌^◌, Bool, true, false, not, ◌&&◌, ◌||◌, Option, none, some,
  List, [], ◌∷◌, ◌++◌, ltb, leb, ◌==◌, if◌then◌else◌, ℤ, pos, ◌-ℤ◌, to_nat, is_zero, length,
  replicate,
}
use osa_kernel_arm_boot_step.Kprintf.Digits.{Bytes, hex2ascii, ksprintn}
use osa_kernel_arm_boot_step.Kprintf.Spec.{
  Spec, initial, Arg, word, quad, bytes, Args, Parsed, conversion, unknown, past_end, bad_arg,
  reswitch,
}
use osa_kernel_arm_boot_step.Kprintf.Spec
use osa_kernel_arm_boot_step.Kprintf.Number.{number, get_num}

abbrev pub c_string : Bytes → Bytes
c_string [] = []
c_string (c ∷ s) = let rest = c_string s in if c == 0 then [] else c ∷ rest

abbrev pub take : ℕ → Bytes → Bytes
take zero s = []
take (suc n) [] = []
take (suc n) (c ∷ s) = c ∷ take n s

-- `case 'b'`: the names of the bits that are set. `start` is the read of a bit's number.
pub bit_names : ℕ → (tmp printing start : Bool) → Bytes → Bytes
bit_names num tmp printing start [] = if tmp then b'>' ∷ [] else []
bit_names num tmp printing start (c ∷ p) =
    let close : Bytes = if tmp then b'>' ∷ [] else [] in
    let named : Bytes = (if tmp then b',' else b'<') ∷ bit_names num true true false p in
    let skipped : Bytes = bit_names num tmp false false p in
    let printed_char : Bytes = c ∷ bit_names num tmp true false p in
    if c == 0
    then close
    else if start || leb c b' '
    then if num / 2 ^ (c - 1) % 2 == 1 then named else skipped
    else if printing
    then printed_char
    else skipped

-- `case 'D'`: `while (width--)` over the bytes, with the separator between them
pub hex_dump : ℕ → Bytes → (sep : Bytes) → Option Bytes
hex_dump zero up sep = some []
hex_dump (suc n) [] sep = none
hex_dump (suc n) (u ∷ up) sep =
    let between : Bytes = if n == 0 then [] else c_string sep in
    elim (hex_dump n up sep) [
      | none ↦ none
      | some s ↦ some (hex2ascii (u % 2 ^ 8 / 2 ^ 4) ∷ hex2ascii (u % 2 ^ 4) ∷ (between ++ s))
    ]

abbrev pub null_text : Bytes
null_text = b'(' ∷ b'n' ∷ b'u' ∷ b'l' ∷ b'l' ∷ b')' ∷ []

-- `case 's'`
unfoldable pub string_text : Spec → Option Bytes → Bytes
string_text s p =
    let whole : Bytes = elim p [ none ↦ null_text | some b ↦ c_string b ] in
    let shown : Bytes = if s.dot then take (to_nat s.dwidth) whole else whole in
    let pad : Bytes = replicate (to_nat (s.width -ℤ length shown)) s.padc in
    if s.ladjust then shown ++ pad else pad ++ shown

-- What a conversion prints, what `%n` stores at which pointer, and the arguments left; `none` is an
-- argument of another kind or a read outside of an object.
abbrev pub Effect : Type 0
Effect = Option (Bytes × List (ℕ × ℕ) × Args)

unfoldable pub numeric : Spec → (base : ℕ) → Args → Effect
numeric s base args = elim (get_num s args) [
  | none ↦ none
  | some (num, more) ↦ elim (number s base num) [ none ↦ none | some t ↦ some (t, [], more) ]
]

-- The labels `handle_nosign` and `handle_sign` differ in `sign`.
abbrev pub nosign : Spec → Spec
nosign s = record s { sign = false }

abbrev pub withsign : Spec → Spec
withsign s = record s { sign = true }

pub show_bits : Args → Effect
unfolding bit_names ksprintn
show_bits (word w ∷ bytes (some (base ∷ p)) ∷ more) =
    let num : ℕ = w % 2 ^ 32 in
    let names : Bytes = if num == 0 then [] else bit_names num false false true p in
    elim (ksprintn num base false) [ none ↦ none | some digits ↦ some (digits ++ names, [], more) ]
show_bits _ = none

pub show_dump : Spec → Args → Effect
unfolding hex_dump hex2ascii
show_dump s (bytes (some up) ∷ bytes (some sep) ∷ more) =
    elim (hex_dump (if is_zero s.width then 16 else to_nat s.width) up sep) [
      | none ↦ none
      | some t ↦ some (t, [], more)
    ]
show_dump s _ = none

pub show_char : Args → Effect
show_char (word w ∷ more) = some (w % 2 ^ 8 ∷ [], [], more)
show_char _ = none

unfoldable pub show_string : Spec → Args → Effect
show_string s (bytes p ∷ more) = some (string_text s p, [], more)
show_string s _ = none

-- `case 'n'`: the count of characters goes to the pointer.
pub store_count : (retval : ℕ) → Args → Effect
store_count retval (word ptr ∷ more) = some ([], (ptr, retval) ∷ [], more)
store_count retval _ = none

unfoldable pub convert : (radix retval c : ℕ) → Spec → Args → Effect
unfolding numeric show_bits show_dump show_char show_string store_count
convert radix retval c s args =
    let pointer = record s {
      sharpflag = is_zero s.width;
      sign = false;
      jflag = false;
      qflag = false;
      hflag = false;
      cflag = false;
    } in
    if c == b'%'
    then some (b'%' ∷ [], [], args)
    else if c == b'b'
    then show_bits args
    else if c == b'c'
    then show_char args
    else if c == b'D'
    then show_dump s args
    else if (c == b'd') || (c == b'i')
    then numeric (withsign s) 10 args
    else if c == b'n'
    then store_count retval args
    else if c == b'o'
    then numeric (nosign s) 8 args
    else if c == b'p'
    then numeric pointer 16 args
    else if c == b'r'
    then numeric s radix args
    else if c == b's'
    then show_string s args
    else if c == b'u'
    then numeric (nosign s) 10 args
    else if c == b'X'
    then numeric (record (nosign s) { upper = true }) 16 args
    else if c == b'x'
    then numeric (nosign s) 16 args
    else numeric (withsign s) 16 args

-- What was printed and stored. `undefined` is a read of an argument or a byte that is not there.
pub data Printed : Type 0 where
  printed : (text : Bytes) → (stores : List (ℕ × ℕ)) → Printed
  undefined : Printed
  out_of_fuel : Printed

-- The outer loop, with the text and the stores so far.
pub run :
    ℕ → (radix : ℕ) → (stop : Bool) → (fmt : Bytes) → Args → (out : Bytes) → List (ℕ × ℕ) → Printed
unfolding convert
run zero radix stop fmt args out stores = out_of_fuel
run (suc fuel) radix stop [] args out stores = printed out stores
run (suc fuel) radix stop (c ∷ fmt) args out stores =
    let plain : Printed = run fuel radix stop fmt args (out ++ c ∷ []) stores in
    let directive : Printed = elim (reswitch fuel initial (b'%' ∷ []) fmt args) [
      | conversion k s rest more ↦ elim (convert radix (length out) k s more) [
        | none ↦ undefined
        | some (t, st, left) ↦ run fuel radix stop rest left (out ++ t) (stores ++ st)
      ]
      | unknown seen rest ↦ run fuel radix true rest args (out ++ seen) stores
      | past_end ↦ undefined
      | bad_arg ↦ undefined
      | Spec.out_of_fuel ↦ out_of_fuel
    ] in
    if c == 0 then printed out stores else if (c == b'%') && not stop then directive else plain

abbrev pub fmt_null : Bytes
fmt_null = b'(' ∷ b'f' ∷ b'm' ∷ b't' ∷ b' ' ∷ b'n' ∷ b'u' ∷ b'l' ∷ b'l' ∷ b')' ∷ 10 ∷ []

-- A round for each character of the format, and one more.
pub kvprintf : (fmt : Option Bytes) → (radix : ℕ) → Args → Printed
unfolding run
kvprintf fmt radix args =
    let text : Bytes = elim fmt [ none ↦ fmt_null | some f ↦ f ] in
    run (length text + 1) (if ltb radix 2 || ltb 36 radix then 10 else radix) false text args [] []

pub kprintf : Bytes → Args → Printed
unfolding kvprintf
kprintf fmt args = kvprintf (some fmt) 10 args
