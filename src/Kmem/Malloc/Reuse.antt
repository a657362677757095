-- ===== src/Kmem/Malloc/Reuse.antt =====
-- `kmalloc` with a hole that it does not split.
use osa_kernel_arm_boot_step.Prelude.{
  ℕ, ◌+◌, ◌^◌, ◌<◌, ◌≤◌, ◌≡◌, refl, List, [], ◌∷◌, Bool-cases, inl, inr, some, false, ◌&&◌, ltb,
  ◌==◌, if◌then◌else◌, arith,
}
use osa_kernel_arm_boot_step.Kmem.State.{
  Ptr, null, Mem, Returns, sizeof_chunk, min_hole_size, chunk_data, space_page_of, dec, align32,
  max_hole_size,
}
use osa_kernel_arm_boot_step.Kmem.Chain.{HasHoles, hole_size}
use osa_kernel_arm_boot_step.Kmem.Malloc.{
  remaining_of, use_hole, take_hole, finish, allocate, kmalloc,
}
use osa_kernel_arm_boot_step.Kmem.Malloc.Limits.{kmalloc-allocate}
use osa_kernel_arm_boot_step.Kmem.Malloc.Holes.{first_fit, after_search, find_hole-first_fit}
use osa_kernel_arm_boot_step.Kmem.Malloc.Unlink.{drop_fit, take_hole-HasHoles}

-- The counters of a page and of the allocator agree as far as `finish` asserts it.
abbrev pub Countable : Mem → Ptr → Type 0
Countable m page =
    (0 < (m.page page).nchunks + (m.alloc).nzpages)
    × ((m.alloc).nzpages ≤ (m.alloc).npages)
    × ((m.alloc).npages < 2 ^ 32)

finish-HasHoles :
    (chunk page : Ptr) (m : Mem) (xs : List Ptr)
    → HasHoles m xs
    → Countable m page
    → Returns (λ p m'. (p ≡ chunk_data chunk) × HasHoles m' xs) (finish chunk page m)
unfolding finish
finish-HasHoles chunk page m xs w (a, b, c) =
    let fine : (((m.page page).nchunks == 0)
          && ltb (m.alloc).npages
              (if (m.page page).nchunks == 0 then dec 32 (m.alloc).nzpages else (m.alloc).nzpages))
        ≡ false =
      ground arith in
    rw fine (refl, record { chain = w.chain; count = w.count; fits = w.fits })

use_hole-take_hole :
    (size : ℕ) (q h : Ptr) (m : Mem)
    → size + sizeof_chunk ≤ hole_size m h
    → hole_size m h ≤ size + sizeof_chunk + min_hole_size
    → hole_size m h < 2 ^ 16
    → use_hole size q h m ≡ take_hole q h m
unfolding use_hole
use_hole-take_hole size q h m room close fits =
    let whole : ltb min_hole_size (remaining_of size h m) ≡ false = ground arith in rw whole refl

take_hole-Countable :
    (q h page : Ptr) (m : Mem) → Countable m page → Countable (take_hole q h m).1 page
unfolding take_hole
take_hole-Countable q h page m c = elim (Bool-cases (q == null)) [ inl e ↦ rw e c | inr e ↦ rw e c ]

first_fit-size :
    (size : Ptr → ℕ) (n : ℕ) (prev : Ptr) (xs : List Ptr) (q h : Ptr)
    → first_fit size n prev xs ≡ some (q, h)
    → n ≤ size h
unfolding first_fit
first_fit-size size n prev [] q h e = cc
first_fit-size size n prev (x ∷ xs) q h e = ground (arith, first_fit-size size n x xs q h)

pub allocate-reuse :
    (size : ℕ) (m : Mem) (xs : List Ptr) (q h : Ptr)
    → HasHoles m xs
    → first_fit (hole_size m) (size + sizeof_chunk) null xs ≡ some (q, h)
    → hole_size m h ≤ size + sizeof_chunk + min_hole_size
    → hole_size m h < 2 ^ 16
    → Countable m (space_page_of h)
    → Returns
        (λ p m'. (p ≡ chunk_data h) × HasHoles m' (drop_fit (hole_size m) (size + sizeof_chunk) xs))
        (allocate size m)
unfolding allocate after_search
allocate-reuse size m xs q h w e close fits c =
    let found =
      find_hole-first_fit ((m.alloc).nholes + 1) size null (m.alloc).holes m xs w.chain
        (omega (arith, w.count)) in
    let whole =
      use_hole-take_hole size q h m (first_fit-size (hole_size m) _ null xs q h e) close fits in
    rw (found, e, whole)
      (finish-HasHoles h (space_page_of h) (take_hole q h m).1 _
        (take_hole-HasHoles m xs (size + sizeof_chunk) w e)
        (take_hole-Countable q h (space_page_of h) m c))

-- A request for at most the largest hole, on a page that is counted consistently: if the first hole
-- that has room for the request, rounded up, and a header is larger than that by 32 bytes at most,
-- `kmalloc` returns its data, and takes it out of the list, with the others in their order and with
-- their count. Consistently: the page has a chunk or some page is unused, and the pages that count
-- as unused are at most the pages in use, whose number has 32 bits.
pub kmalloc-reuse :
    (requested : ℕ) (m : Mem) (xs : List Ptr) (q h : Ptr)
    → align32 requested ≤ max_hole_size
    → HasHoles m xs
    → first_fit (hole_size m) (align32 requested + sizeof_chunk) null xs ≡ some (q, h)
    → hole_size m h ≤ align32 requested + sizeof_chunk + min_hole_size
    → hole_size m h < 2 ^ 16
    → Countable m (space_page_of h)
    → Returns
        (λ p m'.
          (p ≡ chunk_data h)
          × HasHoles m' (drop_fit (hole_size m) (align32 requested + sizeof_chunk) xs))
        (kmalloc requested m)
kmalloc-reuse requested m xs q h small w e close fits c =
    rw (kmalloc-allocate requested m small)
      (allocate-reuse (align32 requested) m xs q h w e close fits c)
