-- ===== src/Kmem/Malloc/Sound.antt =====
-- kmem.c: `kmalloc` and the chunks in use.
use osa_kernel_arm_boot_step.Prelude.{
  ℕ, suc, length, ◌+◌, ◌≤◌, ◌<◌, ◌≡◌, refl, sym, ◌∙◌, List, ◌∷◌, true, false, Option, none, some,
  arith, ltb,
}
use osa_kernel_arm_boot_step.Kmem.State.{
  Ptr, null, Mem, Linker, halted, size_too_large, sizeof_chunk, max_hole_size, align32,
  space_page_of, chunk_data, Ends, Ends-mono, Ends-and_then, Returns-Ends, ◌>>=◌,
}
use osa_kernel_arm_boot_step.Kmem.Chain.{hole_size}
use osa_kernel_arm_boot_step.Kmem.Members.{In}
use osa_kernel_arm_boot_step.Kmem.Sound.{IsRegion, IsSound, pages_of}
use osa_kernel_arm_boot_step.Kmem.Own.{IsOwn, IsOwn-mono, IsOwn-before}
use osa_kernel_arm_boot_step.Kmem.Malloc.{
  use_hole, page_with_room, carve, finish, from_page, allocate, kmalloc,
}
use osa_kernel_arm_boot_step.Kmem.Malloc.Holes.{first_fit, after_search, find_hole-first_fit}
use osa_kernel_arm_boot_step.Kmem.Malloc.Chosen.{finish-IsSound}
use osa_kernel_arm_boot_step.Kmem.Malloc.Picked.{Picked}
use osa_kernel_arm_boot_step.Kmem.Malloc.Parted.{use_hole-Picked}
use osa_kernel_arm_boot_step.Kmem.Malloc.Opened.{Roomy, page_with_room-Roomy}
use osa_kernel_arm_boot_step.Kmem.Malloc.Carved.{IsCarved, carve-IsCarved}

-- The address `p` is that of the data of a new chunk, with room for `size` bytes that are its own,
-- beside the chunks `ls`, which keep their sizes, and the holes `hs0`.
pub record IsGiven (l : Linker) (size : ℕ) (m : Mem) (ls hs0 : List Ptr) (p : Ptr) (m' : Mem)
    : Type 0 where
  pub chunk : Ptr
  pub address : p ≡ chunk_data chunk
  pub room : size ≤ hole_size m' chunk
  pub hs : List Ptr
  pub ps : List Ptr
  pub fs : List Ptr
  pub sound : IsSound l m' (chunk ∷ ls) hs ps fs
  pub own : IsOwn m ls hs0 size chunk hs
  pub sizes : (d : Ptr) → In d ls → hole_size m' d ≡ hole_size m d

module _ (l : Linker) (r : IsRegion l) (size : ℕ) (small : size ≤ max_hole_size) (m : Mem)
    (ls hs0 : List Ptr) where
  -- No page beside the first one is without chunks in use.
  abbrev Full : Type 0
  Full = pages_of l ≤ suc (length ls)

  finish-IsGiven :
      (c : Ptr) (m1 : Mem)
      → Picked l size m ls hs0 c m1
      → Ends Full (IsGiven l size m ls hs0) (finish c (space_page_of c) m1)
  finish-IsGiven c m1 w =
      let f = finish-IsSound l r m1 c ls w.hs w.ps w.fs w.chosen in
      rw (f.0) (record {
        chunk = c;
        address = refl;
        room = w.room;
        hs = w.hs;
        ps = w.ps;
        fs = w.fs;
        sound = f.1;
        own = w.own;
        sizes = w.kept;
      })

  from_page-IsGiven :
      (ps fs : List Ptr)
      → IsSound l m ls hs0 ps fs
      → Ends Full (IsGiven l size m ls hs0) (from_page size m)
  unfolding from_page
  from_page-IsGiven ps fs s =
      Ends-and_then Full (Roomy l size m ls hs0) (IsGiven l size m ls hs0) (page_with_room size m)
        (λ page. carve size page >>= λ chunk. finish chunk page)
        (page_with_room-Roomy l size small m ls hs0 ps fs s)
        (λ page m1 w.
          let k = w.kept in
          Ends-and_then Full (λ c m'. Picked l size m ls hs0 c m' × (space_page_of c ≡ page))
            (IsGiven l size m ls hs0) (carve size page m1) (λ chunk. finish chunk page)
            (Returns-Ends Full (IsCarved l size m1 ls k.hs k.ps k.fs k.sound page w.here w.room)
              (λ c m'. Picked l size m ls hs0 c m' × (space_page_of c ≡ page)) (carve size page m1)
              (carve-IsCarved l size m1 ls k.hs k.ps k.fs k.sound page w.here w.room)
              (λ c m' p. (
                record {
                  hs = k.hs;
                  ps = k.ps;
                  fs = k.fs;
                  chosen = p.0;
                  room = omega (arith, p.1);
                  own = IsOwn-before m m1 ls hs0 k.hs size c k.fewer k.sizes p.4;
                  kept = λ d i. p.3 d i ∙ k.sizes d i;
                },
                p.2,
              )))
            (λ c m2 p. rw (sym p.1) (finish-IsGiven c m2 p.0)))

  allocate-IsGiven :
      (ps fs : List Ptr) (found : Option (Ptr × Ptr))
      → IsSound l m ls hs0 ps fs
      → first_fit (hole_size m) (size + sizeof_chunk) null hs0 ≡ found
      → Ends Full (IsGiven l size m ls hs0) (allocate size m)
  unfolding allocate after_search
  allocate-IsGiven ps fs none s e =
      let h = (s.lists).holes in
      let search =
        find_hole-first_fit ((m.alloc).nholes + 1) size null (m.alloc).holes m hs0 h.chain
          (omega (arith, h.count)) in
      rw (search, e) (from_page-IsGiven ps fs s)
  allocate-IsGiven ps fs (some (q, h)) s e =
      let w = (s.lists).holes in
      let search =
        find_hole-first_fit ((m.alloc).nholes + 1) size null (m.alloc).holes m hs0 w.chain
          (omega (arith, w.count)) in
      rw (search, e)
        (finish-IsGiven (use_hole size q h m).0 (use_hole size q h m).1
          (use_hole-Picked l m ls hs0 ps fs s size q h e (omega arith)))

-- A request that is not refused, whatever its size before it is rounded up on 32 bits.
pub kmalloc-rounded :
    (l : Linker) (requested : ℕ) (m : Mem) (ls hs ps fs : List Ptr)
    → IsRegion l
    → IsSound l m ls hs ps fs
    → align32 requested ≤ max_hole_size
    → Ends
        (pages_of l ≤ suc (length ls))
        (IsGiven l (align32 requested) m ls hs)
        (kmalloc requested m)
unfolding kmalloc
kmalloc-rounded l requested m ls hs ps fs r s small =
    let fine : ltb max_hole_size (align32 requested) ≡ false = ground arith in
    rw fine (
      allocate-IsGiven l r (align32 requested) small m ls hs ps fs
        (first_fit (hole_size m) (align32 requested + sizeof_chunk) null hs) s refl)

pub align32-bounds : (n : ℕ) → n ≤ max_hole_size → (n ≤ align32 n) × (align32 n ≤ max_hole_size)
unfolding align32
align32-bounds n small = (omega (arith, small), omega (arith, small))

-- On a sound heap, a request for at most the largest hole ends: either with the panic that no memory
-- is left, and then there are no fewer chunks in use than pages less one, or with the data of a new
-- chunk that has room for the requested bytes. The header of the chunk and these bytes end in front
-- of the next header, and the chunk begins behind the header and the bytes of each chunk in use that
-- were its own. The heap is then sound with this chunk beside the chunks that were in use, which
-- keep their addresses and sizes.
pub kmalloc-IsGiven :
    (l : Linker) (requested : ℕ) (m : Mem) (ls hs ps fs : List Ptr)
    → IsRegion l
    → IsSound l m ls hs ps fs
    → requested ≤ max_hole_size
    → Ends (pages_of l ≤ suc (length ls)) (IsGiven l requested m ls hs) (kmalloc requested m)
kmalloc-IsGiven l requested m ls hs ps fs r s small =
    let (up, fits) = align32-bounds requested small in
    Ends-mono (pages_of l ≤ suc (length ls)) (pages_of l ≤ suc (length ls))
      (IsGiven l (align32 requested) m ls hs) (IsGiven l requested m ls hs) (kmalloc requested m)
      (kmalloc-rounded l requested m ls hs ps fs r s fits) (λ full. full)
      (λ p m' g. record {
        chunk = g.chunk;
        address = g.address;
        room = omega (arith, up, g.room);
        hs = g.hs;
        ps = g.ps;
        fs = g.fs;
        sound = g.sound;
        own = IsOwn-mono m ls hs g.hs requested (align32 requested) g.chunk up g.own;
        sizes = g.sizes;
      })

-- A larger request is refused.
pub kmalloc-size_too_large :
    (requested : ℕ) (m : Mem)
    → max_hole_size < align32 requested
    → kmalloc requested m ≡ halted size_too_large
unfolding kmalloc
kmalloc-size_too_large requested m large =
    let wrong : ltb max_hole_size (align32 requested) ≡ true = ground arith in rw wrong refl
