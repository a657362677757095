-- ===== src/Mmio.antt =====
-- The register accesses of board.h, `arm_mmio_read8` to `arm_mmio_write32`, and its bit macros.
-- A device is an oracle: it answers a read from the accesses so far. A run extends the history of
-- accesses, newest first; `none` means that a busy wait used up its fuel.
pub mod Update
pub mod Bits
mod Tests
use native.Mathlib.Nat.{mod-eq_of_lt}
use osa_kernel_arm_boot_step.Prelude.{
  ℕ, ◌+◌, ◌/◌, ◌%◌, ◌^◌, ◌≤◌, ◌<◌, ◌≡◌, refl, arith, ◌&&◌, Option, none, some, List, [], ◌∷◌, ◌==◌,
  if◌then◌else◌,
}

pub data Access : Type 0 where
  read : (width addr : ℕ) → Access
  write : (width addr value : ℕ) → Access

abbrev pub History : Type 0
History = List Access

-- The answer to a read of a width at an address.
abbrev pub Device : Type 0
Device = (width addr : ℕ) → History → ℕ

abbrev pub Io : Type 0 → Type 0
Io A = History → Option (A × History)

abbrev pub pure : {A : Type 0} → A → Io A
pure a h = some (a, h)

abbrev pub bind_result :
    {A B : Type 0}
    → Option (A × History)
    → (A → History → Option (B × History))
    → Option (B × History)
bind_result none k = none
bind_result (some (a, h)) k = k a h

-- Inversion of a run that goes on to its end.
pub bind_result-eq-some :
    {A B : Type 0} (r : Option (A × History)) (k : A → History → Option (B × History))
    {b : B × History}
    → bind_result r k ≡ some b
    → (a : A) × (h : History) × (r ≡ some (a, h)) × (k a h ≡ some b)
bind_result-eq-some none k e = cc
bind_result-eq-some (some (a, h)) k e = (a, h, refl, e)

infixl 5 ◌>>=◌ ◌>>◌
abbrev pub ◌>>=◌ : {A B : Type 0} → Io A → (A → Io B) → Io B
m >>= k = λ h. bind_result (m h) k

abbrev pub ◌>>◌ : {B : Type 0} → Io (Unit {0}) → Io B → Io B
m >> k = m >>= λ _. k

-- `(uintptr_t)(base) + (int32_t)off`
abbrev pub at : (base off : ℕ) → ℕ
at base off = (base + off) % 2 ^ 32

abbrev pub arm_mmio_write : (width base off value : ℕ) → Io (Unit {0})
arm_mmio_write w base off value h = some (tt, write w (at base off) (value % 2 ^ w) ∷ h)

abbrev pub arm_mmio_write8 : (base off value : ℕ) → Io (Unit {0})
arm_mmio_write8 = arm_mmio_write 8

abbrev pub arm_mmio_write32 : (base off value : ℕ) → Io (Unit {0})
arm_mmio_write32 = arm_mmio_write 32

module _ (dev : Device) where
  abbrev pub arm_mmio_read : (width base off : ℕ) → Io ℕ
  arm_mmio_read w base off h = some (dev w (at base off) h % 2 ^ w, read w (at base off) ∷ h)

  abbrev pub arm_mmio_read8 : (base off : ℕ) → Io ℕ
  arm_mmio_read8 = arm_mmio_read 8

  abbrev pub arm_mmio_read32 : (base off : ℕ) → Io ℕ
  arm_mmio_read32 = arm_mmio_read 32

-- `((uint32_t)value >> bitIndex) & 1`
abbrev pub get_bit32 : (value index : ℕ) → ℕ
get_bit32 value index = value % 2 ^ 32 / 2 ^ index % 2

-- `(uint32_t)value | (1 << bitIndex)`: the bit is added where it is missing.
abbrev pub set_bit32 : (value index : ℕ) → ℕ
set_bit32 value index =
    let v : ℕ = value % 2 ^ 32 in if get_bit32 v index == 0 then v + 2 ^ index else v

-- The values written to an address at a width, newest first.
unfoldable pub written : (width addr : ℕ) → History → List ℕ
written w a [] = []
written w a (read _ _ ∷ h) = written w a h
written w a (write v b x ∷ h) =
    let older = written w a h in if (v == w) && (b == a) then x ∷ older else older

-- Registers of one device are at distinct addresses, where these do not wrap around.
pub at-eq :
    (base n x y : ℕ) → base + n ≤ 2 ^ 32 → x < n → y < n → (at base y == at base x) ≡ (y == x)
at-eq base n x y fits hx hy =
    let ex : at base x ≡ base + x = mod-eq_of_lt (omega arith) in
    let ey : at base y ≡ base + y = mod-eq_of_lt (omega arith) in rw (ex, ey) (ground arith)
