-- ===== src/Kmem/Free/Again.antt =====
-- kmem.c: `kfree` followed by `kmalloc`.
use osa_kernel_arm_boot_step.Prelude.{
  ℕ, ◌+◌, ◌^◌, ◌<◌, ◌≤◌, ◌≡◌, ◌≢◌, refl, List, ◌∷◌, some, Bool, true, false, not, ltb, leb, ◌==◌,
  if◌then◌else◌, length, Absent, arith, ◌∙◌,
}
use osa_kernel_arm_boot_step.Kmem.State.{
  Ptr, null, Mem, Linker, Run, ok, halted, wild, out_of_fuel, and_then, Returns, Returns-mono,
  sizeof_chunk, min_hole_size, chunk_of, chunk_data, space_page_of, align32, max_hole_size,
}
use osa_kernel_arm_boot_step.Kmem.Chain.{HasHoles, hole_size}
use osa_kernel_arm_boot_step.Kmem.Malloc.{allocate, kmalloc}
use osa_kernel_arm_boot_step.Kmem.Malloc.Limits.{kmalloc-allocate}
use osa_kernel_arm_boot_step.Kmem.Malloc.Holes.{first_fit}
use osa_kernel_arm_boot_step.Kmem.Malloc.Unlink.{drop_fit}
use osa_kernel_arm_boot_step.Kmem.Malloc.Reuse.{Countable, allocate-reuse}
use osa_kernel_arm_boot_step.Kmem.Free.{freed, kfree}
use osa_kernel_arm_boot_step.Kmem.Free.Push.{freed-HasHoles, freed-size, freed-unused}

freed-Countable :
    (hole page : Ptr) (m : Mem)
    → 0 < (m.page page).nchunks
    → (m.page page).nchunks < 2 ^ 16
    → (m.alloc).nzpages < (m.alloc).npages
    → (m.alloc).npages < 2 ^ 32
    → Countable (freed hole page m) page
unfolding freed
freed-Countable hole page m some_chunk few zero_pages pages =
    (ground arith, ground arith, ground arith)

pub kfree-freed :
    (l : Linker) (addr : Ptr) (m : Mem)
    → (m.page (space_page_of addr)).allocator ≡ l.alloc_addr
    → hole_size m (chunk_of addr) ≤ (m.alloc).allocated
    → (m.alloc).nzpages < (m.alloc).npages
    → (m.alloc).npages < 2 ^ 32
    → kfree l addr m ≡ ok tt (freed (chunk_of addr) (space_page_of addr) m)
unfolding kfree
kfree-freed l addr m owner small zero_pages pages =
    let wrong : not ((m.page (space_page_of addr)).allocator == l.alloc_addr) ≡ false =
      ground arith in
    let enough : ltb (m.alloc).allocated (hole_size m (chunk_of addr)) ≡ false = ground arith in
    if-false _ _ _ wrong
    ∙ if-false _ _ _ enough
    ∙ if-false _ _ _ (freed-unused (chunk_of addr) (space_page_of addr) m zero_pages pages)
  where
    if-false : (b : Bool) (x y : Run (Unit {0})) → b ≡ false → (if b then x else y) ≡ y
    if-false true x y e = cc
    if-false false x y e = refl

reuse_first :
    (size : ℕ) (h : Ptr) (m : Mem) (xs : List Ptr)
    → HasHoles m (h ∷ xs)
    → size + sizeof_chunk ≤ hole_size m h
    → hole_size m h ≤ size + sizeof_chunk + min_hole_size
    → hole_size m h < 2 ^ 16
    → Countable m (space_page_of h)
    → Returns (λ p m'. (p ≡ chunk_data h) × HasHoles m' xs) (allocate size m)
unfolding first_fit drop_fit
reuse_first size h m xs w room close fits c =
    let fit : leb (size + sizeof_chunk) (hole_size m h) ≡ true = ground arith in
    let first : first_fit (hole_size m) (size + sizeof_chunk) null (h ∷ xs) ≡ some (null, h) =
      rw fit refl in
    let rest : drop_fit (hole_size m) (size + sizeof_chunk) (h ∷ xs) ≡ xs = rw fit refl in
    rw rest at (allocate-reuse size m (h ∷ xs) null h w first close fits c)

pub allocate-kfree :
    (l : Linker) (addr : Ptr) (size : ℕ) (m : Mem) (xs : List Ptr)
    → HasHoles m xs
    → chunk_of addr ≢ null
    → Absent (chunk_of addr) xs
    → length xs + 1 < 2 ^ 32
    → chunk_data (chunk_of addr) ≡ addr
    → space_page_of (chunk_of addr) ≡ space_page_of addr
    → (m.page (space_page_of addr)).allocator ≡ l.alloc_addr
    → hole_size m (chunk_of addr) ≤ (m.alloc).allocated
    → 0 < (m.page (space_page_of addr)).nchunks
    → (m.page (space_page_of addr)).nchunks < 2 ^ 16
    → (m.alloc).nzpages < (m.alloc).npages
    → (m.alloc).npages < 2 ^ 32
    → size + sizeof_chunk ≤ hole_size m (chunk_of addr)
    → hole_size m (chunk_of addr) ≤ size + sizeof_chunk + min_hole_size
    → hole_size m (chunk_of addr) < 2 ^ 16
    → Returns (λ p m'. (p ≡ addr) × HasHoles m' xs) (and_then (kfree l addr m) (λ _. allocate size))
allocate-kfree l addr size m xs w ne out room at_data same owner small some_chunk few zero_pages
      pages big close fits =
    let h = chunk_of addr in
    let page = space_page_of addr in
    let m' = freed h page m in
    let kept : hole_size m' h ≡ hole_size m h = freed-size h page m h in
    let counted : Countable m' (space_page_of h) =
      rw same (freed-Countable h page m some_chunk few zero_pages pages) in
    rw (kfree-freed l addr m owner small zero_pages pages) (
      Returns-mono (λ p k. (p ≡ chunk_data h) × HasHoles k xs) (λ p k. (p ≡ addr) × HasHoles k xs)
        (allocate size m')
        (reuse_first size h m' xs (freed-HasHoles h page m xs w ne out room) (omega arith)
          (omega arith) (omega arith) counted)
        (λ p k r. (r.0 ∙ at_data, r.1)))

kmalloc_instead :
    (r : Run (Unit {0})) (requested : ℕ)
    → align32 requested ≤ max_hole_size
    → and_then r (λ _. kmalloc requested) ≡ and_then r (λ _. allocate (align32 requested))
kmalloc_instead (ok x m) requested limit = kmalloc-allocate requested m limit
kmalloc_instead (halted reason) requested limit = refl
kmalloc_instead wild requested limit = refl
kmalloc_instead out_of_fuel requested limit = refl

-- A chunk with its header and data on one page of the allocator, outside a well-formed list of
-- holes, no larger than what is counted as allocated, is freed without a halt, if its page counts a
-- chunk, not all pages count as unused, and the counters are within their widths. The next request
-- for at most the largest hole whose size, rounded up to a multiple of four, is the chunk's size less
-- a header, or up to 32 bytes fewer, then gets the same address, and the list of holes is as it was
-- before.
pub kmalloc-kfree :
    (l : Linker) (addr : Ptr) (requested : ℕ) (m : Mem) (xs : List Ptr)
    → align32 requested ≤ max_hole_size
    → HasHoles m xs
    → chunk_of addr ≢ null
    → Absent (chunk_of addr) xs
    → length xs + 1 < 2 ^ 32
    → chunk_data (chunk_of addr) ≡ addr
    → space_page_of (chunk_of addr) ≡ space_page_of addr
    → (m.page (space_page_of addr)).allocator ≡ l.alloc_addr
    → hole_size m (chunk_of addr) ≤ (m.alloc).allocated
    → 0 < (m.page (space_page_of addr)).nchunks
    → (m.page (space_page_of addr)).nchunks < 2 ^ 16
    → (m.alloc).nzpages < (m.alloc).npages
    → (m.alloc).npages < 2 ^ 32
    → align32 requested + sizeof_chunk ≤ hole_size m (chunk_of addr)
    → hole_size m (chunk_of addr) ≤ align32 requested + sizeof_chunk + min_hole_size
    → hole_size m (chunk_of addr) < 2 ^ 16
    → Returns
        (λ p m'. (p ≡ addr) × HasHoles m' xs)
        (and_then (kfree l addr m) (λ _. kmalloc requested))
kmalloc-kfree l addr requested m xs limit w ne out room at_data same owner small some_chunk few
      zero_pages pages big close fits =
    rw (kmalloc_instead (kfree l addr m) requested limit) (
      allocate-kfree l addr (align32 requested) m xs w ne out room at_data same owner small
        some_chunk few zero_pages pages big close fits)
