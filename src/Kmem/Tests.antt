-- ===== src/Kmem/Tests.antt =====
-- The allocator's theorems on a list of two holes.
mod Lists
mod Sound
use osa_kernel_arm_boot_step.Prelude.{
  ltb, leb, ◌&&◌, ◌-◌, ◌^◌, ◌+◌, ◌≡◌, ◌≢◌, refl, List, [], ◌∷◌, some, ◌==◌, if◌then◌else◌, arith,
}
use osa_kernel_arm_boot_step.Kmem.State.{
  align32, Ptr, null, chunk_data, halted, size_too_large, max_hole_size, SpacePage, SpaceValloc,
  Mem, Linker, Returns, and_then, sizeof_chunk,
}
use osa_kernel_arm_boot_step.Kmem.Init.{space_valloc_init}
use osa_kernel_arm_boot_step.Kmem.Init.Pages.{space_valloc_init_lem}
use osa_kernel_arm_boot_step.Kmem.Chain.{Chain, HasHoles, hole_size, hole_next}
use osa_kernel_arm_boot_step.Kmem.Malloc.Limits.{kmalloc_limits}
use osa_kernel_arm_boot_step.Kmem.Malloc.Reuse.{kmalloc-reuse}
use osa_kernel_arm_boot_step.Kmem.Malloc.{kmalloc, allocate, find_hole, take_hole, split_hole}
use osa_kernel_arm_boot_step.Kmem.Malloc.Split.{split_hole-overlap}
use osa_kernel_arm_boot_step.Kmem.Malloc.Holes.{first_fit, after_search, find_hole-first_fit}
use osa_kernel_arm_boot_step.Kmem.Malloc.Unlink.{drop_fit, take_hole-HasHoles}
use osa_kernel_arm_boot_step.Kmem.Cleanup.{clean_holes}
use osa_kernel_arm_boot_step.Kmem.Cleanup.Holes.{Swept, clean_holes-keep}
use osa_kernel_arm_boot_step.Kmem.Free.{kfree}
use osa_kernel_arm_boot_step.Kmem.Free.Again.{kmalloc-kfree}
use osa_kernel_arm_boot_step.Kmem.Free.Push.{kfree-HasHoles}

abbrev linker : Linker
linker = record { kheap_low = 0x10000; kheap_high = 0x20000; alloc_addr = 0x900 }

abbrev used_page : SpacePage
used_page = record {
  start = 0;
  end = 4076;
  nchunks = 2;
  offset = 400;
  free = 400;
  next = null;
  allocator = 0x900;
}

abbrev valloc : SpaceValloc
valloc = record {
  low = 0x10000;
  high = 0x20000;
  first = 0x10FEC;
  pages = 0x10FEC;
  npages = 1;
  nzpages = 0;
  holes = 0x10040;
  nholes = 2;
  free_pages = null;
  free_npages = 0;
  nchunks = 2;
  allocated = 500;
}

abbrev two_holes : Mem
two_holes = record {
  chunk = λ p.
      if p == 0x10040
      then record { size = 50; next = 0x10080 }
      else record { size = 100; next = null };
  page = λ p. used_page;
  alloc = valloc;
}

abbrev holes : List Ptr
holes = 0x10040 ∷ 0x10080 ∷ []

two_holes-Chain : Chain (hole_next two_holes) 0x10040 holes
two_holes-Chain = (refl, omega arith, (omega arith, tt), (refl, omega arith, tt, refl))

two_holes-HasHoles : HasHoles two_holes holes
two_holes-HasHoles = record { chain = two_holes-Chain; count = refl; fits = omega arith }

find_hole-first_fit_example :
    find_hole 3 60 null 0x10040 two_holes
    ≡ after_search 60 two_holes (first_fit (hole_size two_holes) (60 + sizeof_chunk) null holes)
find_hole-first_fit_example =
    find_hole-first_fit 3 60 null 0x10040 two_holes holes two_holes-Chain (omega arith)

second_fits : first_fit (hole_size two_holes) 68 null holes ≡ some (0x10040, 0x10080)
unfolding first_fit
second_fits = refl

take_hole-HasHoles_example :
    HasHoles (take_hole 0x10040 0x10080 two_holes).1 (drop_fit (hole_size two_holes) 68 holes)
take_hole-HasHoles_example = take_hole-HasHoles two_holes holes 68 two_holes-HasHoles second_fits

abbrev large_hole : Mem
large_hole = record two_holes { chunk = λ p. record { size = 100; next = null } }

split_hole-overlap_example :
    ((split_hole 16 0x10040 large_hole).1.alloc ≡ large_hole.alloc)
    × ((c : Ptr)
        → c ≢ 0x10040
        → c ≢ (split_hole 16 0x10040 large_hole).0
        → (split_hole 16 0x10040 large_hole).1.chunk c ≡ large_hole.chunk c)
    × (hole_size (split_hole 16 0x10040 large_hole).1 0x10040 + 24 ≡ 100)
    × (hole_size (split_hole 16 0x10040 large_hole).1 (split_hole 16 0x10040 large_hole).0 ≡ 16)
    × (hole_next (split_hole 16 0x10040 large_hole).1 0x10040 ≡ null)
    × ((split_hole 16 0x10040 large_hole).0 + 8
        ≡ 0x10048 + hole_size (split_hole 16 0x10040 large_hole).1 0x10040)
    × (chunk_data (split_hole 16 0x10040 large_hole).0 + 16 + 8 ≡ 0x10048 + 100)
split_hole-overlap_example = split_hole-overlap 16 0x10040 large_hole (omega arith) (omega arith)

kmalloc_limits_example : kmalloc 0xFFFF_FFFE two_holes ≡ (
    if ltb max_hole_size 0xFFFF_FFFE && leb 0xFFFF_FFFE (2 ^ 32 - 4)
    then halted size_too_large
    else allocate 0 two_holes)
kmalloc_limits_example = kmalloc_limits 0xFFFF_FFFE two_holes (omega arith)

kmalloc-reuse_example :
    Returns
      (λ p m'.
        (p ≡ 0x10088) × HasHoles m' (drop_fit (hole_size two_holes) (60 + sizeof_chunk) holes))
      (kmalloc 58 two_holes)
unfolding align32
kmalloc-reuse_example =
    kmalloc-reuse 58 two_holes holes 0x10040 0x10080 (omega arith) two_holes-HasHoles second_fits
      (omega arith) (omega arith) (omega arith, omega arith, omega arith)

kmalloc-kfree_example :
    Returns
      (λ p m'. (p ≡ 0x100C8) × HasHoles m' holes)
      (and_then (kfree linker 0x100C8 two_holes) (λ _. kmalloc 89))
unfolding align32
kmalloc-kfree_example =
    kmalloc-kfree linker 0x100C8 89 two_holes holes (omega arith) two_holes-HasHoles (omega arith)
      (omega arith, (omega arith, tt)) (omega arith) refl refl refl (omega arith) (omega arith)
      (omega arith) (omega arith) (omega arith) (omega arith) (omega arith) (omega arith)
