-- ===== src/Kmem/Init/Sound.antt =====
-- kmem.c: the heap after `space_valloc_init`, with no chunk in use.
use osa_kernel_arm_boot_step.Prelude.{
  ◌+◌, ◌-◌, ◌/◌, ◌%◌, ◌≤◌, ◌<◌, ◌^◌, ◌≡◌, ◌≢◌, refl, sym, List, [], ◌∷◌, arith, ◌==◌, Bool-cases,
  inl, inr, length,
}
use osa_kernel_arm_boot_step.Kmem.State.{
  Ptr, Mem, Linker, hal_page_size, space_page_of, Returns, Returns-mono,
}
use osa_kernel_arm_boot_step.Kmem.Members.{In, In-cons}
use osa_kernel_arm_boot_step.Kmem.Sound.{IsRegion, IsPage, IsSound, pages_of}
use osa_kernel_arm_boot_step.Kmem.Layout.{IsPage-same}
use osa_kernel_arm_boot_step.Kmem.Init.{first_page, add_free_page, init_loop, space_valloc_init}
use osa_kernel_arm_boot_step.Kmem.Init.Whole.{
  header_of, Started, add_free_page-Started, first_page-Started, Ended, init_loop-Ended,
}

module _ (l : Linker) (r : IsRegion l) where
  -- The pages in front of `addr`, where the next page begins, are laid out.
  record Paged (fs : List Ptr) (addr : Ptr) (m : Mem) : Type 0 where
    started : Started (header_of l.kheap_low) fs (header_of addr) m
    aligned : space_page_of addr ≡ header_of addr
    low : l.kheap_low ≤ addr
    pages : (p : Ptr) → In p (header_of l.kheap_low ∷ fs) → IsPage l m p
    empty : (m.page (header_of l.kheap_low)).nchunks ≡ 0
    first : (m.alloc).first ≡ header_of l.kheap_low
    total : (m.alloc).nchunks ≡ 0
    allocated : (m.alloc).allocated ≡ 0

  -- The page at `addr`, as `space_page_init` leaves it.
  added-IsPage :
      (addr : Ptr) (m : Mem)
      → space_page_of addr ≡ header_of addr
      → l.kheap_low ≤ addr
      → addr + hal_page_size ≤ l.kheap_high
      → IsPage l (add_free_page l addr m) (header_of addr)
  unfolding add_free_page
  added-IsPage addr m aligned low le = record {
    header = omega (arith, aligned);
    above = omega arith;
    below = omega arith;
    start = ground arith;
    end = ground arith;
    offset = ground arith;
    owner = ground arith;
  }

  other-IsPage :
      (addr p : Ptr) (m : Mem)
      → header_of addr ≢ p
      → IsPage l m p
      → IsPage l (add_free_page l addr m) p
  unfolding add_free_page
  other-IsPage addr p m ne w =
      IsPage-same l m (add_free_page l addr m) p w (ground arith) (ground arith) (ground arith)
        (ground arith)

  empty_page :
      (addr : Ptr) (fs : List Ptr) (m : Mem)
      → Paged fs addr m
      → ((add_free_page l addr m).page (header_of l.kheap_low)).nchunks ≡ 0
  unfolding add_free_page
  empty_page addr fs m s =
      let nx : header_of addr ≢ header_of l.kheap_low =
        λ e. absurd (omega (arith, (s.started).first, e)) in
      ground (arith, s.empty)

  add_free_page-Paged :
      (addr : Ptr) (fs : List Ptr) (m : Mem)
      → Paged fs addr m
      → addr + hal_page_size ≤ l.kheap_high
      → length fs + 2 < 2 ^ 16
      → Paged (header_of addr ∷ fs) (addr + hal_page_size) (add_free_page l addr m)
  unfolding add_free_page
  add_free_page-Paged addr fs m s le room = record {
    started = add_free_page-Started l addr (header_of l.kheap_low) fs m s.started room;
    aligned = omega (arith, s.aligned);
    low = omega (arith, s.low);
    pages = λ p i. elim (Bool-cases (header_of addr == p)) [
      | inl e ↦
          let same : header_of addr ≡ p = ground arith in
          rw (sym same) (added-IsPage addr m s.aligned s.low le)
      | inr ne ↦
          let nx : header_of addr ≢ p = ground arith in
          other-IsPage addr p m nx (s.pages p (λ out. i (out.0, ((λ e. nx (sym e)), out.1))))
    ];
    empty = empty_page addr fs m s;
    first = s.first;
    total = s.total;
    allocated = s.allocated;
  }

  first_page-Paged :
      (m : Mem) → (m.alloc).nchunks ≡ 0 → Paged [] (l.kheap_low + hal_page_size) (first_page l m)
  unfolding first_page
  first_page-Paged m no_chunk =
      let f = header_of l.kheap_low in
      record {
        started = first_page-Started l m (omega (arith, r.some_page, r.top));
        aligned = omega (arith, r.aligned);
        low = omega arith;
        pages = λ p i. elim (In-cons p f [] i) [
          | inl e ↦ rw e (record {
            header = omega (arith, r.aligned);
            above = omega arith;
            below = omega (arith, r.some_page);
            start = ground arith;
            end = ground arith;
            offset = ground arith;
            owner = ground arith;
          })
          | inr no_more ↦ absurd (no_more tt)
        ];
        empty = ground arith;
        first = refl;
        total = no_chunk;
        allocated = refl;
      }

  Paged-IsSound :
      (fs : List Ptr) (addr : Ptr) (m : Mem)
      → Paged fs addr m
      → length fs + 1 ≡ pages_of l
      → IsSound l m [] [] (header_of l.kheap_low ∷ []) fs
  Paged-IsSound fs addr m s whole =
      let f = header_of l.kheap_low in
      record {
        lists = (s.started).lists;
        laid = record {
          pages = λ p i. elim i [
            | inl used ↦ s.pages p (λ out. used (out.0, tt))
            | inr free ↦ s.pages p (λ out. free out.1)
          ];
          placed = λ c i. elim i [ inl i' ↦ absurd (i' tt) | inr i' ↦ absurd (i' tt) ];
          apart = λ c d i id lt. elim i [ inl i' ↦ absurd (i' tt) | inr i' ↦ absurd (i' tt) ];
        };
        counted = record {
          nchunks = λ p i. elim (In-cons p f [] i) [
            | inl e ↦ rw e (s.empty)
            | inr no_more ↦ absurd (no_more tt)
          ];
          total = s.total;
          allocated = s.allocated;
        };
        distinct = tt;
        fresh = λ c i. absurd (i tt);
        first = λ out. out.0 s.first;
        whole = omega (arith, whole);
      }

  -- On a heap of whole pages whose counter of chunks is zero, `space_valloc_init` returns with a
  -- sound heap: no chunk in use, no hole, the first page in use and the other ones free.
  pub space_valloc_init-IsSound :
      (m : Mem)
      → (m.alloc).nchunks ≡ 0
      → Returns
          (λ _ m'. (fs : List Ptr) × IsSound l m' [] [] (header_of l.kheap_low ∷ []) fs)
          (space_valloc_init l m)
  unfolding space_valloc_init
  space_valloc_init-IsSound m no_chunk =
      let start : (l.kheap_low + hal_page_size) % 2 ^ 32 ≡ l.kheap_low + hal_page_size =
        omega (arith, r.some_page, r.top) in
      let n = 0 + (l.kheap_high - (l.kheap_low + hal_page_size)) / hal_page_size in
      rw start (
        Returns-mono (Ended l Paged add_free_page-Paged n) _
          (init_loop ((l.kheap_high - l.kheap_low) / hal_page_size + 1) l
            (l.kheap_low + hal_page_size) (first_page l m))
          (init_loop-Ended l Paged add_free_page-Paged
            ((l.kheap_high - l.kheap_low) / hal_page_size + 1) (l.kheap_low + hal_page_size) []
            (first_page l m) (first_page-Paged m no_chunk) (omega (arith, r.some_page)) r.top
            (omega (arith, r.some_page)) (omega (arith, r.some_page, r.pages)))
          (λ _ m' e.
            let all : length e.0 + 1 ≡ pages_of l = omega (arith, e.3, r.some_page) in
            (e.0, Paged-IsSound e.0 e.1 m' e.2 all)))
