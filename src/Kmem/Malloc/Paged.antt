-- ===== src/Kmem/Malloc/Paged.antt =====
-- kmem.c: `kmalloc` where no hole is large enough: a chunk of the current page or of a free one.
use osa_kernel_arm_boot_step.Prelude.{
  ℕ, ◌+◌, ◌%◌, ◌<◌, ◌≤◌, ◌^◌, ◌≡◌, refl, List, [], ◌∷◌, arith, ◌&&◌, not, ltb, ◌==◌, length, Absent,
  Bool-cases, inl, inr,
}
use mathlib.Core.Path.{fun_ext}
use osa_kernel_arm_boot_step.Kmem.State.{
  Ptr, null, Mem, set_size, sizeof_chunk, chunk_data, hal_page_of, ◌>>=◌, set_page, Returns, Safe,
  Safe-and_then, Returns-Safe, Returns-mono,
}
use osa_kernel_arm_boot_step.Kmem.Chain.{hole_size, Chain, page_next}
use osa_kernel_arm_boot_step.Kmem.Cleanup.{space_valloc_cleanup}
use osa_kernel_arm_boot_step.Kmem.Cleanup.Whole.{
  HasLists, is_unused, space_valloc_cleanup-HasLists, space_valloc_cleanup-one,
}
use osa_kernel_arm_boot_step.Kmem.Lists.{HasLists-frame, Consistent}
use osa_kernel_arm_boot_step.Kmem.Malloc.{
  cleanup_if_needed, take_free_page, carve, page_with_room, finish, from_page,
}
use osa_kernel_arm_boot_step.Kmem.Malloc.Counted.{finish-HasLists}
use osa_kernel_arm_boot_step.Kmem.Malloc.Taken.{Ready, take_free_page-Ready}

abbrev pub carved : (size : ℕ) → (page : Ptr) → Mem → Mem
carved size page m =
    let header = m.page page in
    set_page page (record header { offset = (header.offset + (size + sizeof_chunk)) % 2 ^ 16 })
      (set_size (hal_page_of page + header.offset) size m)

carved-unused : (size : ℕ) (page : Ptr) (m : Mem) → is_unused (carved size page m) ≡ is_unused m
carved-unused size page m = fun_ext (λ a. ground arith)

pub carved-HasLists :
    (size : ℕ) (page : Ptr) (m : Mem) (hs ps fs : List Ptr)
    → HasLists m hs ps fs
    → HasLists (carved size page m) hs ps fs
carved-HasLists size page m hs ps fs w =
    HasLists-frame m (carved size page m) hs ps fs w
      (record {
        hole_links = λ a. ground arith;
        page_links = λ a. ground arith;
        holes = refl;
        nholes = refl;
        pages = refl;
        npages = refl;
        free_pages = refl;
        free_npages = refl;
      })
      (rw (carved-unused size page m) w.nzpages)

carve-Ready :
    (size : ℕ) (page : Ptr) (m : Mem)
    → size < 2 ^ 16
    → Ready page m
    → Returns (λ chunk m'. Ready page m' × size ≤ hole_size m' chunk) (carve size page m)
unfolding carve
carve-Ready size page m short r =
    let c = r.consistent in
    (
      record {
        consistent = record {
          hs = c.hs;
          ps = c.ps;
          fs = c.fs;
          lists = carved-HasLists size page m c.hs c.ps c.fs c.lists;
        };
        here = r.here;
        few = ground (arith, r.few);
      },
      ground (arith, short),
    )

cleanup-Consistent :
    (m : Mem) → Consistent m → Returns (λ _ m'. Consistent m') (space_valloc_cleanup m)
cleanup-Consistent m c = elim (Bool-cases ((m.alloc).npages == 1)) [
  | inl one ↦ rw (space_valloc_cleanup-one m (ground arith)) c
  | inr several ↦
      Returns-mono _ _ (space_valloc_cleanup m)
        (space_valloc_cleanup-HasLists m c.hs c.ps c.fs c.lists (ground arith))
        (λ _ m' w. record { hs = _; ps = _; fs = _; lists = w })
]

cleanup_if_needed-Consistent :
    (m : Mem) → Consistent m → Returns (λ _ m'. Consistent m') (cleanup_if_needed m)
unfolding cleanup_if_needed space_valloc_cleanup
cleanup_if_needed-Consistent m c =
    elim (Bool-cases (((m.alloc).free_pages == null) && not ((m.alloc).nzpages == 0))) [
      | inl on ↦ rw on (cleanup-Consistent m c)
      | inr off ↦ rw off c
    ]

fresh-Ready : (m : Mem) → Consistent m → Safe Ready ((do _ ← cleanup_if_needed; take_free_page) m)
fresh-Ready m c =
    Safe-and_then (λ _ m'. Consistent m') Ready (cleanup_if_needed m) (λ _. take_free_page)
      (Returns-Safe _ _ (cleanup_if_needed m) (cleanup_if_needed-Consistent m c) (λ _ m' w. w))
      (λ _ m' w. take_free_page-Ready m' w)

first-here :
    (next : Ptr → Ptr) (p : Ptr) (ps : List Ptr) → Chain next p ps → 0 < length ps → ¬ Absent p ps
first-here next p [] c some_page = absurd (omega arith)
first-here next p (x ∷ ps) c some_page = λ out. out.0 c.0

page_with_room-Ready :
    (size : ℕ) (m : Mem)
    → Consistent m
    → 0 < (m.alloc).npages
    → ((p : Ptr) → (m.page p).nchunks + 1 < 2 ^ 16)
    → Safe Ready (page_with_room size m)
unfolding page_with_room cleanup_if_needed take_free_page space_valloc_cleanup
page_with_room-Ready size m c some_page few =
    let header = m.page (m.alloc).pages in
    let w = c.lists in
    elim (Bool-cases (ltb header.end (header.offset + (size + sizeof_chunk)))) [
      | inl full ↦ rw full (fresh-Ready m c)
      | inr room ↦ rw room (record {
        consistent = c;
        here = first-here (page_next m) (m.alloc).pages c.ps w.used (omega (arith, w.npages));
        few = few (m.alloc).pages;
      })
    ]

-- The address `p` is that of a chunk's data, with room for `size` bytes by its header, on a page in
-- use, and the lists are consistent.
pub record Allocated (size : ℕ) (p : Ptr) (m : Mem) : Type 0 where
  pub chunk : Ptr
  pub address : p ≡ chunk_data chunk
  pub room : size ≤ hole_size m chunk
  pub consistent : Consistent m
  pub page : Ptr
  pub here : ¬ Absent page consistent.ps

pub finish-Consistent :
    (size : ℕ) (chunk page : Ptr) (m : Mem)
    → Ready page m
    → size ≤ hole_size m chunk
    → Safe (Allocated size) (finish chunk page m)
finish-Consistent size chunk page m r room =
    let c = r.consistent in
    Returns-Safe
      (λ p m'. (p ≡ chunk_data chunk) × (m'.chunk ≡ m.chunk) × HasLists m' c.hs c.ps c.fs)
      (Allocated size) (finish chunk page m)
      (finish-HasLists chunk page m c.hs c.ps c.fs c.lists r.here r.few)
      (λ p m' w. record {
        chunk = chunk;
        address = w.0;
        room = rw (w.1) room;
        consistent = record { hs = c.hs; ps = c.ps; fs = c.fs; lists = w.2 };
        page = page;
        here = r.here;
      })

-- The rest of `kmalloc` where no hole is large enough.
pub from_page-Consistent :
    (size : ℕ) (m : Mem)
    → Consistent m
    → size < 2 ^ 16
    → 0 < (m.alloc).npages
    → ((p : Ptr) → (m.page p).nchunks + 1 < 2 ^ 16)
    → Safe (Allocated size) (from_page size m)
unfolding from_page
from_page-Consistent size m c short some_page few =
    Safe-and_then Ready (Allocated size) (page_with_room size m)
      (λ page. carve size page >>= λ chunk. finish chunk page)
      (page_with_room-Ready size m c some_page few)
      (λ page m1 r.
        Safe-and_then (λ chunk m'. Ready page m' × size ≤ hole_size m' chunk) (Allocated size)
          (carve size page m1) (λ chunk. finish chunk page)
          (Returns-Safe (λ chunk m'. Ready page m' × size ≤ hole_size m' chunk)
            (λ chunk m'. Ready page m' × size ≤ hole_size m' chunk) (carve size page m1)
            (carve-Ready size page m1 short r) (λ _ m' w. w))
          (λ chunk m2 r2. finish-Consistent size chunk page m2 r2.0 r2.1))
