-- ===== src/Kprintf/Digits.antt =====
-- kprintf.c: `ksprintn`, the digits of a number. The buffer of MAXNBUF = 33 bytes holds a NUL and 32
-- digits, which are kept here in the order in which they are printed.
pub mod Value
use Prim.Native.Char.{code}
use Prim.Native.String.{String}
use Prim.Native.String
use osa_kernel_arm_boot_step.Prelude.{
  ℕ, zero, suc, ◌+◌, ◌-◌, ◌*◌, ◌/◌, ◌%◌, Bool, Option, none, some, List, [], ◌∷◌, ◌&&◌, ltb, leb,
  ◌==◌, if◌then◌else◌,
}

abbrev pub Bytes : Type 0
Bytes = List ℕ

-- The characters of a text.
abbrev pub codes : String → Bytes
codes String.[] = []
codes (String.◌∷◌ c s) = code c ∷ codes s

-- `hex2ascii_data[hex]`, for an index below 36
unfoldable pub hex2ascii : ℕ → ℕ
hex2ascii hex = if ltb hex 10 then b'0' + hex else b'a' + (hex - 10)

unfoldable pub toupper : ℕ → ℕ
toupper c = if leb b'a' c && leb c b'z' then c - 0x20 else c

abbrev pub digit_char : Bool → ℕ → ℕ
digit_char upper d = let c = hex2ascii d in if upper then toupper c else c

abbrev pub max_digits : ℕ
max_digits = 32

-- The loop, with the room that is left in the buffer; `none` is a write behind its end.
pub ksprintn_loop : (room num base : ℕ) → Bool → Bytes → Option Bytes
unfolding hex2ascii toupper
ksprintn_loop zero num base upper out = none
ksprintn_loop (suc room) num base upper out =
    let longer = digit_char upper (num % base) ∷ out in
    let rest = ksprintn_loop room (num / base) base upper longer in
    if num / base == 0 then some longer else rest

-- `none` is also a division by zero.
unfoldable pub ksprintn : (num base : ℕ) → Bool → Option Bytes
unfolding ksprintn_loop
ksprintn num base upper = if base == 0 then none else ksprintn_loop max_digits num base upper []
