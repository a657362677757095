-- ===== src/Kmem/Malloc/Holes.antt =====
-- The search of `kmalloc` through the list of holes, against a search through a plain list.
use osa_kernel_arm_boot_step.Prelude.{
  ℕ, zero, suc, ◌+◌, ◌<◌, ◌≡◌, List, [], ◌∷◌, Option, none, some, arith, leb, if◌then◌else◌, length,
}
use osa_kernel_arm_boot_step.Kmem.State.{Ptr, Mem, Run, ok, sizeof_chunk}
use osa_kernel_arm_boot_step.Kmem.Chain.{Chain, hole_next, hole_size}
use osa_kernel_arm_boot_step.Kmem.Malloc.{find_hole, use_hole}

-- The first item of size at least `n`, behind its predecessor.
unfoldable pub first_fit : (Ptr → ℕ) → ℕ → Ptr → List Ptr → Option (Ptr × Ptr)
first_fit size n prev [] = none
first_fit size n prev (x ∷ xs) =
    let rest = first_fit size n x xs in if leb n (size x) then some (prev, x) else rest

unfoldable pub after_search : ℕ → Mem → Option (Ptr × Ptr) → Run (Option Ptr)
after_search size m none = ok none m
after_search size m (some (prev, hole)) =
    let (chunk, m') = use_hole size prev hole m in ok (some chunk) m'

-- On a chain of holes and with a round for each, the loop ends; it uses the first hole that is
-- large enough, and leaves the memory alone if there is none.
pub find_hole-first_fit :
    (fuel size : ℕ) (prev hole : Ptr) (m : Mem) (xs : List Ptr)
    → Chain (hole_next m) hole xs
    → length xs < fuel
    → find_hole fuel size prev hole m
      ≡ after_search size m (first_fit (hole_size m) (size + sizeof_chunk) prev xs)
unfolding find_hole first_fit after_search
find_hole-first_fit zero size prev hole m xs c h = absurd (omega arith)
find_hole-first_fit (suc fuel) size prev hole m [] c h = rw c
find_hole-first_fit (suc fuel) size prev hole m (x ∷ xs) c h =
    ground (arith, find_hole-first_fit fuel size hole (hole_next m hole) m xs)
