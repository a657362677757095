-- ===== src/Kmem/Malloc/Limits.antt =====
-- kmem.c: which requests `kmalloc` refuses, and how it rounds the others.
use osa_kernel_arm_boot_step.Prelude.{
  ℕ, ◌+◌, ◌-◌, ◌*◌, ◌/◌, ◌%◌, ◌^◌, ◌<◌, ◌≤◌, ◌≡◌, refl, false, ◌&&◌, ltb, leb, if◌then◌else◌, arith,
}
use osa_kernel_arm_boot_step.Kmem.State.{Mem, halted, size_too_large, align32, max_hole_size}
use osa_kernel_arm_boot_step.Kmem.Malloc.{allocate, kmalloc}

-- A request that is not refused is served with its size rounded up.
pub kmalloc-allocate :
    (requested : ℕ) (m : Mem)
    → align32 requested ≤ max_hole_size
    → kmalloc requested m ≡ allocate (align32 requested) m
unfolding kmalloc
kmalloc-allocate requested m small =
    let fine : ltb max_hole_size (align32 requested) ≡ false = ground arith in rw fine refl

-- A request of 32 bits is refused if it is larger than the largest hole and at most 2 ^ 32 - 4. Any
-- other one is rounded up to a multiple of four, on 32 bits; so the requests above 2 ^ 32 - 4 are
-- not refused, and are treated as requests of no bytes.
pub kmalloc_limits :
    (size : ℕ) (m : Mem)
    → size < 2 ^ 32
    → kmalloc size m ≡ (
        if ltb max_hole_size size && leb size (2 ^ 32 - 4)
        then halted size_too_large
        else allocate ((size + 3) / 4 * 4 % 2 ^ 32) m)
unfolding kmalloc align32
kmalloc_limits size m fits =
    let rounded : align32 size ≡ (size + 3) / 4 * 4 % 2 ^ 32 = omega arith in
    rw rounded (ground arith)
