-- ===== src/Kmem/Tests/Sound.antt =====
-- Instances of the theorems on chunks in use: a heap of four pages.
use osa_kernel_arm_boot_step.Prelude.{suc, ◌≤◌, ◌≡◌, refl, List, [], ◌∷◌, length, arith}
use osa_kernel_arm_boot_step.Kmem.State.{
  Ptr, Mem, Linker, ok, and_then, chunk_data, max_hole_size, Returns, Ends, Safe, returned,
  Ends-Returns,
}
use osa_kernel_arm_boot_step.Kmem.Chain.{hole_size}
use osa_kernel_arm_boot_step.Kmem.Members.{remove}
use osa_kernel_arm_boot_step.Kmem.Sound.{IsRegion, IsSound, pages_of}
use osa_kernel_arm_boot_step.Kmem.Init.{space_valloc_init, empty_valloc}
use osa_kernel_arm_boot_step.Kmem.Init.Whole.{header_of}
use osa_kernel_arm_boot_step.Kmem.Init.Sound.{space_valloc_init-IsSound}
use osa_kernel_arm_boot_step.Kmem.Malloc.{kmalloc}
use osa_kernel_arm_boot_step.Kmem.Malloc.Sound.{IsGiven, kmalloc-IsGiven}
use osa_kernel_arm_boot_step.Kmem.Free.{kfree}
use osa_kernel_arm_boot_step.Kmem.Free.Sound.{kfree-IsSound}
use osa_kernel_arm_boot_step.Kmem.Requests.{
  Request, malloc, free, serve, no_chunks, AreApart, serve-AreApart,
}

abbrev linker : Linker
linker = record { kheap_low = 0x10000; kheap_high = 0x14000; alloc_addr = 0x8000 }

abbrev blank : Mem
blank = record {
  chunk = λ p. record { size = 0; next = 0 };
  page = λ p. record {
    start = 0;
    end = 0;
    nchunks = 0;
    offset = 0;
    free = 0;
    next = 0;
    allocator = 0;
  };
  alloc = empty_valloc linker;
}

linker-IsRegion : IsRegion linker
linker-IsRegion = record {
  aligned = refl;
  not_null = omega arith;
  some_page = omega arith;
  top = omega arith;
  pages = omega arith;
}

abbrev IsStarted : Unit {0} → Mem → Type 0
IsStarted _ m' = (fs : List Ptr) × IsSound linker m' [] [] (header_of linker.kheap_low ∷ []) fs

space_valloc_init-IsSound_example : Returns IsStarted (space_valloc_init linker blank)
space_valloc_init-IsSound_example = space_valloc_init-IsSound linker linker-IsRegion blank refl

-- The heap after its initialisation, and after a first request.
started : (a : Unit {0}) × (m : Mem) × IsStarted a m × (space_valloc_init linker blank ≡ ok a m)
started =
    returned IsStarted (space_valloc_init linker blank)
      (space_valloc_init-IsSound linker linker-IsRegion blank refl)

abbrev fresh_heap : Mem
fresh_heap = started.1

small : 13 ≤ max_hole_size
small = omega arith

kmalloc-IsGiven_example :
    Ends
      (pages_of linker ≤ suc (length {A = Ptr} []))
      (IsGiven linker 13 fresh_heap [] [])
      (kmalloc 13 fresh_heap)
kmalloc-IsGiven_example =
    kmalloc-IsGiven linker 13 fresh_heap [] [] (header_of linker.kheap_low ∷ []) ((started.2).0)
      linker-IsRegion ((started.2).1) small

given :
    (p : Ptr) × (m : Mem) × IsGiven linker 13 fresh_heap [] [] p m
    × (kmalloc 13 fresh_heap ≡ ok p m)
given = returned (IsGiven linker 13 fresh_heap [] []) (kmalloc 13 fresh_heap) (
    Ends-Returns (pages_of linker ≤ suc (length {A = Ptr} [])) (IsGiven linker 13 fresh_heap [] [])
      (kmalloc 13 fresh_heap)
      (kmalloc-IsGiven linker 13 fresh_heap [] [] (header_of linker.kheap_low ∷ []) ((started.2).0)
        linker-IsRegion ((started.2).1) small)
      (omega arith))

kfree-IsSound_example :
    Returns
      (λ _ m'.
        IsSound linker m'
          (remove (given.2).chunk ((given.2).chunk ∷ []))
          ((given.2).chunk ∷ (given.2).hs)
          (given.2).ps
          (given.2).fs
        × ((a : Ptr) → hole_size m' a ≡ hole_size given.1 a))
      (kfree linker (chunk_data (given.2).chunk) given.1)
kfree-IsSound_example =
    kfree-IsSound linker linker-IsRegion given.1 ((given.2).chunk ∷ []) (given.2).hs (given.2).ps
      (given.2).fs (given.2).sound (given.2).chunk (λ out. out.0 refl)

abbrev requests : List Request
requests = malloc 13 ∷ malloc 100 ∷ free 1 ∷ malloc 40 ∷ []

serve-AreApart_example :
    Safe
      (AreApart linker)
      (and_then (space_valloc_init linker blank) (λ _. serve linker requests no_chunks))
serve-AreApart_example = serve-AreApart linker linker-IsRegion blank requests refl (omega arith)
