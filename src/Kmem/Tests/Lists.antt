-- ===== src/Kmem/Tests/Lists.antt =====
-- The allocator on two pages: the first one of the heap with a chunk, and an unused one with a hole.
use osa_kernel_arm_boot_step.Prelude.{[], ◌∷◌, refl, ◌==◌, if◌then◌else◌, arith}
use osa_kernel_arm_boot_step.Kmem.State.{null, SpacePage, SpaceValloc, Mem, Returns}
use osa_kernel_arm_boot_step.Kmem.Cleanup.{space_valloc_cleanup}
use osa_kernel_arm_boot_step.Kmem.Cleanup.Moved.{releases}
use osa_kernel_arm_boot_step.Kmem.Cleanup.Whole.{HasLists, space_valloc_cleanup-HasLists}

abbrev first_page : SpacePage
first_page = record {
  start = 0;
  end = 4076;
  nchunks = 1;
  offset = 40;
  free = 0;
  next = null;
  allocator = 0x900;
}

abbrev unused_page : SpacePage
unused_page = record {
  start = 0;
  end = 4076;
  nchunks = 0;
  offset = 40;
  free = 0;
  next = 0x10FEC;
  allocator = 0x900;
}

abbrev valloc : SpaceValloc
valloc = record {
  low = 0x10000;
  high = 0x12000;
  first = 0x10FEC;
  pages = 0x11FEC;
  npages = 2;
  nzpages = 1;
  holes = 0x11000;
  nholes = 1;
  free_pages = null;
  free_npages = 0;
  nchunks = 1;
  allocated = 32;
}

abbrev two_pages : Mem
two_pages = record {
  chunk = λ p. record { size = 32; next = null };
  page = λ p. if p == 0x10FEC then first_page else unused_page;
  alloc = valloc;
}

two_pages-HasLists : HasLists two_pages (0x11000 ∷ []) (0x11FEC ∷ 0x10FEC ∷ []) []
two_pages-HasLists = record {
  holes = record { chain = (refl, omega arith, tt, refl); count = refl; fits = omega arith };
  used = (refl, omega arith, (omega arith, tt), (refl, omega arith, tt, refl));
  free = refl;
  apart = (tt, (tt, tt));
  on_pages = ((λ out. out.0 refl), tt);
  npages = refl;
  nzpages = refl;
  free_npages = refl;
  few = omega arith;
}

space_valloc_cleanup-HasLists_example :
    Returns (λ _ m'. HasLists m' [] (0x10FEC ∷ []) (0x11FEC ∷ [])) (space_valloc_cleanup two_pages)
unfolding releases
space_valloc_cleanup-HasLists_example =
    space_valloc_cleanup-HasLists two_pages (0x11000 ∷ []) (0x11FEC ∷ 0x10FEC ∷ []) []
      two_pages-HasLists (omega arith)
