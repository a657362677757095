-- ===== src/Kmem/Free/Push.antt =====
-- kmem.c: the list of holes and the counters after `kfree`.
use osa_kernel_arm_boot_step.Prelude.{
  ◌+◌, ◌^◌, ◌<◌, ◌≤◌, ◌≡◌, ◌≢◌, refl, Bool, true, false, not, ◌&&◌, ltb, ◌==◌, if◌then◌else◌, List,
  ◌∷◌, length, Absent, arith,
}
use osa_kernel_arm_boot_step.Kmem.State.{
  Ptr, null, chunk_of, space_page_of, Mem, Linker, Run, halted, wild, assertion, Returns,
}
use osa_kernel_arm_boot_step.Kmem.Chain.{Chain-frame, All-of_Absent, HasHoles, hole_next, hole_size}
use osa_kernel_arm_boot_step.Kmem.Free.{freed, kfree}

pub freed-HasHoles :
    (hole page : Ptr) (m : Mem) (xs : List Ptr)
    → HasHoles m xs
    → hole ≢ null
    → Absent hole xs
    → length xs + 1 < 2 ^ 32
    → HasHoles (freed hole page m) (hole ∷ xs)
unfolding freed
freed-HasHoles hole page m xs w ne out room =
    let head : hole_next (freed hole page m) hole ≡ (m.alloc).holes = ground arith in
    record {
      chain = (
        refl,
        ne,
        out,
        rw head (
            Chain-frame (hole_next m) (hole_next (freed hole page m)) (m.alloc).holes xs w.chain
              (All-of_Absent _ hole xs out (λ x far. ground arith))),
      );
      count = omega (arith, w.count);
      fits = omega (arith, room);
    }

pub freed-size :
    (hole page : Ptr) (m : Mem) (x : Ptr) → hole_size (freed hole page m) x ≡ hole_size m x
unfolding freed
freed-size hole page m x = ground arith

freed-nchunks :
    (hole page : Ptr) (m : Mem)
    → 0 < (m.page page).nchunks
    → (m.page page).nchunks < 2 ^ 16
    → ((freed hole page m).page page).nchunks + 1 ≡ (m.page page).nchunks
unfolding freed
freed-nchunks hole page m some_chunk few = ground arith

pub freed-unused :
    (hole page : Ptr) (m : Mem)
    → (m.alloc).nzpages < (m.alloc).npages
    → (m.alloc).npages < 2 ^ 32
    → ((((freed hole page m).page page).nchunks == 0)
        && ltb ((freed hole page m).alloc).npages ((freed hole page m).alloc).nzpages)
      ≡ false
unfolding freed
freed-unused hole page m zero_pages pages = ground arith

Returns-else :
    (P : Unit {0} → Mem → Type 0) (b : Bool) (x y : Run (Unit {0}))
    → b ≡ false
    → Returns P y
    → Returns P (if b then x else y)
Returns-else P true x y e h = cc
Returns-else P false x y e h = h

-- A chunk outside a well-formed list of holes, on a page of the allocator that counts at least one
-- chunk, and no larger than what is counted as allocated, is freed without a halt, if not all pages
-- count as unused and the counters are within their widths: it becomes the first hole before the
-- others, all sizes stay, its size is taken off the allocated bytes, and its page counts one chunk
-- less.
pub kfree-HasHoles :
    (l : Linker) (addr : Ptr) (m : Mem) (xs : List Ptr)
    → HasHoles m xs
    → chunk_of addr ≢ null
    → Absent (chunk_of addr) xs
    → length xs + 1 < 2 ^ 32
    → (m.page (space_page_of addr)).allocator ≡ l.alloc_addr
    → hole_size m (chunk_of addr) ≤ (m.alloc).allocated
    → (m.alloc).allocated < 2 ^ 64
    → 0 < (m.page (space_page_of addr)).nchunks
    → (m.page (space_page_of addr)).nchunks < 2 ^ 16
    → (m.alloc).nzpages < (m.alloc).npages
    → (m.alloc).npages < 2 ^ 32
    → Returns
        (λ _ m'.
          HasHoles m' (chunk_of addr ∷ xs)
          × ((x : Ptr) → hole_size m' x ≡ hole_size m x)
          × ((m'.alloc).allocated + hole_size m (chunk_of addr) ≡ (m.alloc).allocated)
          × ((m'.page (space_page_of addr)).nchunks + 1 ≡ (m.page (space_page_of addr)).nchunks))
        (kfree l addr m)
unfolding kfree freed
kfree-HasHoles l addr m xs w ne out room owner small bound some_chunk few zero_pages pages =
    let m' : Mem = freed (chunk_of addr) (space_page_of addr) m in
    let page = space_page_of addr in
    let wrong : not ((m.page page).allocator == l.alloc_addr) ≡ false = ground arith in
    let enough : ltb (m.alloc).allocated (hole_size m (chunk_of addr)) ≡ false = ground arith in
    Returns-else _ _ wild _ wrong (
      Returns-else _ _ (halted assertion) _ enough (
        Returns-else _ _ (halted assertion) _ (freed-unused (chunk_of addr) page m zero_pages pages)
          (
            freed-HasHoles (chunk_of addr) page m xs w ne out room,
            (λ x. freed-size (chunk_of addr) page m x),
            omega arith,
            freed-nchunks (chunk_of addr) page m some_chunk few,
          )))
