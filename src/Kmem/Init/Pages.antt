-- ===== src/Kmem/Init/Pages.antt =====
-- kmem.c: the counts of pages and holes after `space_valloc_init`.
use osa_kernel_arm_boot_step.Prelude.{
  ℕ, zero, suc, ◌+◌, ◌-◌, ◌/◌, ◌%◌, ◌^◌, ◌<◌, ◌≤◌, ◌≡◌, refl, leb, arith, Bool-cases, inl, inr, [],
}
use osa_kernel_arm_boot_step.Kmem.State.{Ptr, hal_page_size, Mem, Linker, Returns, Returns-mono}
use osa_kernel_arm_boot_step.Kmem.Chain.{HasHoles}
use osa_kernel_arm_boot_step.Kmem.Init.{first_page, add_free_page, init_loop, space_valloc_init}

-- A run that adds `n` free pages and leaves the list of holes and the count of pages in use.
record Added (n : ℕ) (m m' : Mem) : Type 0 where
  pub holes : (m'.alloc).holes ≡ (m.alloc).holes
  pub nholes : (m'.alloc).nholes ≡ (m.alloc).nholes
  pub npages : (m'.alloc).npages ≡ (m.alloc).npages
  pub free : (m'.alloc).free_npages ≡ ((m.alloc).free_npages + n) % 2 ^ 16

init_loop-Added :
    (fuel : ℕ) (l : Linker) (addr : Ptr) (m : Mem)
    → (l.kheap_high - addr) / hal_page_size < fuel
    → l.kheap_high + 0x3000 ≤ 2 ^ 32
    → addr ≤ l.kheap_high + 0x1000
    → (m.alloc).free_npages < 2 ^ 16
    → Returns (λ _ m'. Added ((l.kheap_high - addr) / hal_page_size) m m') (init_loop fuel l addr m)
unfolding init_loop add_free_page
init_loop-Added zero l addr m f top low b = absurd (omega arith)
init_loop-Added (suc fuel) l addr m f top low b =
    let step : (addr + hal_page_size) % 2 ^ 32 ≡ addr + hal_page_size = omega arith in
    rw step (elim (Bool-cases (leb (addr + hal_page_size) l.kheap_high)) [
      | inl more ↦ rw more (
          Returns-mono
            (λ _ k.
              Added ((l.kheap_high - (addr + hal_page_size)) / hal_page_size)
                (add_free_page l addr m) k)
            (λ _ k. Added ((l.kheap_high - addr) / hal_page_size) m k)
            (init_loop fuel l (addr + hal_page_size) (add_free_page l addr m))
            (init_loop-Added fuel l (addr + hal_page_size) (add_free_page l addr m) (ground arith)
              top (ground arith) (omega arith))
            (λ _ m' r. record {
              holes = r.holes;
              nholes = r.nholes;
              npages = r.npages;
              free = ground (arith, r.free);
            }))
      | inr done ↦
          rw done (record { holes = refl; nholes = refl; npages = refl; free = ground arith })
    ])

-- If the heap ends at least three pages below the end of the address space and does not begin behind
-- its end, `space_valloc_init` returns with no hole, one page in use, and the other pages of the heap
-- as free ones, counted on 16 bits; of a heap of less than two pages none is free.
pub space_valloc_init_lem :
    (l : Linker) (m : Mem)
    → l.kheap_low ≤ l.kheap_high
    → l.kheap_high + 0x3000 ≤ 2 ^ 32
    → Returns
        (λ _ m'.
          HasHoles m' []
          × ((m'.alloc).npages ≡ 1)
          × ((m'.alloc).free_npages ≡ ((l.kheap_high - l.kheap_low) / hal_page_size - 1) % 2 ^ 16))
        (space_valloc_init l m)
unfolding space_valloc_init first_page
space_valloc_init_lem l m order top =
    let start : (l.kheap_low + hal_page_size) % 2 ^ 32 ≡ l.kheap_low + hal_page_size =
      omega arith in
    let fuel = (l.kheap_high - l.kheap_low) / hal_page_size + 1 in
    rw start (
      Returns-mono
        (λ _ k.
          Added ((l.kheap_high - (l.kheap_low + hal_page_size)) / hal_page_size) (first_page l m) k)
        (λ _ k.
          HasHoles k []
          × ((k.alloc).npages ≡ 1)
          × ((k.alloc).free_npages ≡ ((l.kheap_high - l.kheap_low) / hal_page_size - 1) % 2 ^ 16))
        (init_loop fuel l (l.kheap_low + hal_page_size) (first_page l m))
        (init_loop-Added fuel l (l.kheap_low + hal_page_size) (first_page l m) (omega arith) top
          (omega arith) (omega arith))
        (λ _ m' r. (
          record { chain = r.holes; count = r.nholes; fits = omega arith },
          r.npages,
          omega (arith, r.free),
        )))
