-- ===== src/Kmem/Init/Whole.antt =====
-- kmem.c: the lists of pages and free pages after `space_valloc_init`.
use osa_kernel_arm_boot_step.Prelude.{
  ℕ, zero, suc, ◌+◌, ◌-◌, ◌/◌, ◌%◌, ◌^◌, ◌<◌, ◌≤◌, ◌≡◌, ◌≢◌, refl, List, [], ◌∷◌, true, leb, length,
  Absent, All, arith, Bool-cases, inl, inr,
}
use osa_kernel_arm_boot_step.Kmem.State.{
  Ptr, null, hal_page_size, sizeof_space_page, Mem, Linker, Returns, Returns-mono,
}
use osa_kernel_arm_boot_step.Kmem.Chain.{page_next, Chain-frame, All-of_Absent}
use osa_kernel_arm_boot_step.Kmem.Cleanup.Whole.{HasLists, is_unused}
use osa_kernel_arm_boot_step.Kmem.Init.{first_page, add_free_page, init_loop, space_valloc_init}

-- The header of the page at an address.
abbrev pub header_of : Ptr → Ptr
header_of addr = addr + (hal_page_size - sizeof_space_page)

-- A heap with no hole, the page `f` in use, and free pages whose headers lie below `x`.
pub record Started (f : Ptr) (fs : List Ptr) (x : Ptr) (m : Mem) : Type 0 where
  pub lists : HasLists m [] (f ∷ []) fs
  pub below : All (λ y. y < x) fs
  pub first : f < x

All-below : (x y : Ptr) (fs : List Ptr) → x ≤ y → All (λ a. a < x) fs → All (λ a. a < y) fs
All-below x y [] le all = tt
All-below x y (a ∷ fs) le all = (omega (arith, all.0), All-below x y fs le all.1)

pub Absent-above : (x : Ptr) (fs : List Ptr) → All (λ a. a < x) fs → Absent x fs
Absent-above x [] all = tt
Absent-above x (a ∷ fs) all = ((λ e. absurd (omega (arith, all.0, e))), Absent-above x fs all.1)

pub add_free_page-Started :
    (l : Linker) (addr f : Ptr) (fs : List Ptr) (m : Mem)
    → Started f fs (header_of addr) m
    → length fs + 2 < 2 ^ 16
    → Started f (header_of addr ∷ fs) (header_of (addr + hal_page_size)) (add_free_page l addr m)
unfolding add_free_page
add_free_page-Started l addr f fs m s room =
    let x = header_of addr in
    let m' = add_free_page l addr m in
    let w = s.lists in
    let out = Absent-above x fs s.below in
    let nx : x ≢ f = λ e. absurd (omega (arith, s.first, e)) in
    let link : page_next m' x ≡ (m.alloc).free_pages = ground arith in
    let other : (a : Ptr) → x ≢ a → page_next m' a ≡ page_next m a = λ a ne. ground arith in
    let same : page_next m' f ≡ page_next m f = other f nx in
    let unused : is_unused m' f ≡ is_unused m f = ground arith in
    record {
      lists = record {
        holes = record { chain = (w.holes).chain; count = (w.holes).count; fits = (w.holes).fits };
        used = ((w.used).0, (w.used).1, tt, rw same (w.used).3);
        free = (
          refl,
          omega arith,
          out,
          rw link (
              Chain-frame (page_next m) (page_next m') (m.alloc).free_pages fs w.free
                (All-of_Absent _ x fs out other)),
        );
        apart = (((λ e. absurd (omega (arith, s.first, e))), (w.apart).0), tt);
        on_pages = tt;
        npages = w.npages;
        nzpages = rw unused w.nzpages;
        free_npages = omega (arith, w.free_npages, room);
        few = omega (arith, room);
      };
      below =
          (omega arith, All-below x (header_of (addr + hal_page_size)) fs (omega arith) s.below);
      first = omega (arith, s.first);
    }

-- The loop, with an invariant on the free pages, the address of the next page and the memory.
module _ (l : Linker) (P : List Ptr → Ptr → Mem → Type 0)
    (step : (addr : Ptr) (fs : List Ptr) (m : Mem)
      → P fs addr m
      → addr + hal_page_size ≤ l.kheap_high
      → length fs + 2 < 2 ^ 16
      → P (header_of addr ∷ fs) (addr + hal_page_size) (add_free_page l addr m)) where
  abbrev pub Ended : ℕ → Unit {0} → Mem → Type 0
  Ended n _ m = (fs : List Ptr) × (addr : Ptr) × P fs addr m × (length fs ≡ n)

  pub init_loop-Ended :
      (fuel : ℕ) (addr : Ptr) (fs : List Ptr) (m : Mem)
      → P fs addr m
      → (l.kheap_high - addr) / hal_page_size < fuel
      → l.kheap_high + 0x3000 ≤ 2 ^ 32
      → addr ≤ l.kheap_high + 0x1000
      → length fs + (l.kheap_high - addr) / hal_page_size + 1 < 2 ^ 16
      → Returns
          (Ended (length fs + (l.kheap_high - addr) / hal_page_size))
          (init_loop fuel l addr m)
  unfolding init_loop
  init_loop-Ended zero addr fs m s fl top low room = absurd (omega arith)
  init_loop-Ended (suc fuel) addr fs m s fl top low room =
      let next : (addr + hal_page_size) % 2 ^ 32 ≡ addr + hal_page_size = omega arith in
      rw next (elim (Bool-cases (leb (addr + hal_page_size) l.kheap_high)) [
        | inl more ↦
            let le : addr + hal_page_size ≤ l.kheap_high = ground arith in
            let n = suc (length fs) + (l.kheap_high - (addr + hal_page_size)) / hal_page_size in
            rw more (
              Returns-mono (Ended n) (Ended (length fs + (l.kheap_high - addr) / hal_page_size))
                (init_loop fuel l (addr + hal_page_size) (add_free_page l addr m))
                (init_loop-Ended fuel (addr + hal_page_size) (header_of addr ∷ fs)
                  (add_free_page l addr m) (step addr fs m s le (omega (arith, le)))
                  (omega (arith, le)) top (omega (arith, le)) (omega (arith, le)))
                (λ _ m' r. (r.0, r.1, r.2, omega (arith, r.3, le))))
        | inr done ↦
            let gt : l.kheap_high < addr + hal_page_size = ground arith in
            rw done (fs, addr, s, omega (arith, gt))
      ])

pub first_page-Started :
    (l : Linker) (m : Mem)
    → l.kheap_low + hal_page_size < 2 ^ 32
    → Started (header_of l.kheap_low) [] (header_of (l.kheap_low + hal_page_size)) (first_page l m)
unfolding first_page
first_page-Started l m top =
    let f = header_of l.kheap_low in
    let empty : is_unused (first_page l m) f ≡ true = ground arith in
    let next : page_next (first_page l m) f ≡ null = ground arith in
    record {
      lists = record {
        holes = record { chain = refl; count = refl; fits = omega arith };
        used = (refl, omega arith, tt, next);
        free = refl;
        apart = (tt, tt);
        on_pages = tt;
        npages = refl;
        nzpages = rw empty refl;
        free_npages = refl;
        few = omega arith;
      };
      below = tt;
      first = omega arith;
    }

-- If the heap ends at least three pages below the end of the address space, does not begin behind
-- its end and has less than 2 ^ 16 pages, `space_valloc_init` returns with consistent lists and
-- counters: no hole, the first page in use, and the other pages of the heap free.
pub space_valloc_init-HasLists :
    (l : Linker) (m : Mem)
    → l.kheap_low ≤ l.kheap_high
    → l.kheap_high + 0x3000 ≤ 2 ^ 32
    → (l.kheap_high - l.kheap_low) / hal_page_size < 2 ^ 16
    → Returns
        (λ _ m'.
          (fs : List Ptr) × HasLists m' [] (header_of l.kheap_low ∷ []) fs
          × (length fs ≡ (l.kheap_high - l.kheap_low) / hal_page_size - 1))
        (space_valloc_init l m)
unfolding space_valloc_init first_page
space_valloc_init-HasLists l m order top pages =
    let start : (l.kheap_low + hal_page_size) % 2 ^ 32 ≡ l.kheap_low + hal_page_size =
      omega arith in
    let f = header_of l.kheap_low in
    let P : List Ptr → Ptr → Mem → Type 0 = λ fs addr m1. Started f fs (header_of addr) m1 in
    let step : (addr : Ptr) (fs : List Ptr) (m1 : Mem)
        → P fs addr m1
        → addr + hal_page_size ≤ l.kheap_high
        → length fs + 2 < 2 ^ 16
        → P (header_of addr ∷ fs) (addr + hal_page_size) (add_free_page l addr m1) =
      λ addr fs m1 s le room. add_free_page-Started l addr f fs m1 s room in
    rw start (
      Returns-mono
        (Ended l P step (0 + (l.kheap_high - (l.kheap_low + hal_page_size)) / hal_page_size))
        (λ _ m'.
          (fs : List Ptr) × HasLists m' [] (f ∷ []) fs
          × (length fs ≡ (l.kheap_high - l.kheap_low) / hal_page_size - 1))
        (init_loop ((l.kheap_high - l.kheap_low) / hal_page_size + 1) l
          (l.kheap_low + hal_page_size) (first_page l m))
        (init_loop-Ended l P step ((l.kheap_high - l.kheap_low) / hal_page_size + 1)
          (l.kheap_low + hal_page_size) [] (first_page l m) (first_page-Started l m (omega arith))
          (omega arith) top (omega arith) (omega arith))
        (λ _ m' r. (r.0, (r.2).lists, omega (arith, r.3))))
