-- ===== src/Mmio/Bits.antt =====
-- board.h: what the macros that set and clear a bit of a byte do to each of its bits.
use osa_kernel_arm_boot_step.Prelude.{
  ℕ, zero, suc, ◌%◌, ◌^◌, ◌<◌, ◌≡◌, refl, Bool, true, false, ◌+◌, ◌≤◌, ◌&&◌, ◌==◌, if◌then◌else◌,
  arith, ==_iff,
}
use osa_kernel_arm_boot_step.Mmio.Update.{get_bit8, set_bit8, clear_bit8}

-- The test holds at the first `count` numbers from `from` on.
passes : (test : ℕ → Bool) (count from : ℕ) → Bool
passes test zero from = true
passes test (suc count) from =
    let later = passes test count (from + 1) in if test from then later else false

passes_lem :
    (test : ℕ → Bool) (count from k : ℕ)
    → from ≤ k
    → k < from + count
    → passes test count from ≡ true
    → test k ≡ true
unfolding passes
passes_lem test zero from k low high ok = absurd (omega (arith, low, high))
passes_lem test (suc count) from k low high ok = ground (arith, passes_lem test count (from + 1) k)

sets : (v i j : ℕ) → Bool
sets v i j = get_bit8 (set_bit8 v i) j == (if i == j then 1 else get_bit8 v j)

clears : (v i j : ℕ) → Bool
clears v i j = get_bit8 (clear_bit8 v i) j == (if i == j then 0 else get_bit8 v j)

agrees : (v i j : ℕ) → Bool
agrees v i j = sets v i j && clears v i j

each_bit : (v i : ℕ) → Bool
each_bit v i = passes (agrees v i) 8 0

each_index : ℕ → Bool
each_index v = passes (each_bit v) 8 0

every_byte : passes each_index 256 0 ≡ true
unfolding passes each_index each_bit agrees sets clears
every_byte = refl

agrees_lem : (v i j : ℕ) → v < 256 → i < 8 → j < 8 → agrees v i j ≡ true
unfolding each_index each_bit
agrees_lem v i j hv hi hj =
    let of_byte = passes_lem each_index 256 0 v (omega arith) hv every_byte in
    let of_index = passes_lem (each_bit v) 8 0 i (omega arith) hi of_byte in
    passes_lem (agrees v i) 8 0 j (omega arith) hj of_index

-- `setBit8` sets the bit with the index and leaves the seven others of the byte, and `clearBit8`
-- clears it and leaves the others.
pub set_bit8-clear_bit8 :
    (v i j : ℕ)
    → i < 8
    → j < 8
    → (get_bit8 (set_bit8 v i) j ≡ (if i == j then 1 else get_bit8 v j))
      × (get_bit8 (clear_bit8 v i) j ≡ (if i == j then 0 else get_bit8 v j))
unfolding agrees sets clears
set_bit8-clear_bit8 v i j hi hj =
    let byte : v % 2 ^ 8 % 2 ^ 8 ≡ v % 2 ^ 8 = omega arith in
    let both = agrees_lem (v % 2 ^ 8) i j (omega arith) hi hj in
    let both' : (sets v i j && clears v i j) ≡ true = rw byte at both in
    (
      (==_iff _ _).0 (and-left (sets v i j) (clears v i j) both'),
      (==_iff _ _).0 (and-right (sets v i j) (clears v i j) both'),
    )
  where
    and-left : (a b : Bool) → (a && b) ≡ true → a ≡ true
    and-left a b h = ground arith

    and-right : (a b : Bool) → (a && b) ≡ true → b ≡ true
    and-right a b h = ground arith
