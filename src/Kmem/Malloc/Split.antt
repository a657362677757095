-- ===== src/Kmem/Malloc/Split.antt =====
-- The two parts of a hole that `kmalloc` splits.
use osa_kernel_arm_boot_step.Prelude.{ℕ, ◌+◌, ◌^◌, ◌<◌, ◌≡◌, ◌≢◌, refl, arith}
use osa_kernel_arm_boot_step.Kmem.State.{Ptr, Mem, min_hole_size, sizeof_chunk, chunk_data}
use osa_kernel_arm_boot_step.Kmem.Chain.{hole_next, hole_size}
use osa_kernel_arm_boot_step.Kmem.Malloc.{split_hole}

-- If a hole is larger than the request and a header by more than the smallest hole, the split keeps
-- the allocator's lists and counters, the link of the hole and every other header, and gives the
-- chunk the requested size. The hole that stays is smaller by the request
-- and a header; the header of the chunk is the last part of the hole's data, and the last eight
-- bytes of the old hole belong to neither.
pub split_hole-overlap :
    (size : ℕ) (hole : Ptr) (m : Mem)
    → size + sizeof_chunk + min_hole_size < hole_size m hole
    → hole_size m hole < 2 ^ 16
    → ((split_hole size hole m).1.alloc ≡ m.alloc)
      × ((c : Ptr)
          → c ≢ hole
          → c ≢ (split_hole size hole m).0
          → (split_hole size hole m).1.chunk c ≡ m.chunk c)
      × (hole_size (split_hole size hole m).1 hole + (size + sizeof_chunk) ≡ hole_size m hole)
      × (hole_size (split_hole size hole m).1 (split_hole size hole m).0 ≡ size)
      × (hole_next (split_hole size hole m).1 hole ≡ hole_next m hole)
      × ((split_hole size hole m).0 + sizeof_chunk
          ≡ chunk_data hole + hole_size (split_hole size hole m).1 hole)
      × (chunk_data (split_hole size hole m).0 + size + sizeof_chunk
          ≡ chunk_data hole + hole_size m hole)
unfolding split_hole
split_hole-overlap size hole m room fits = (
  refl,
  λ c other fresh. ground arith,
  ground arith,
  ground arith,
  ground arith,
  ground arith,
  ground arith,
)
