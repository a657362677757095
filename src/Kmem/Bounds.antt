-- ===== src/Kmem/Bounds.antt =====
-- kmem.c: where chunks and holes lie, and how far the allocator's counters can go.
use osa_kernel_arm_boot_step.Prelude.{
  ℕ, ◌+◌, ◌-◌, ◌*◌, ◌≤◌, ◌<◌, ◌^◌, ◌≡◌, ◌≢◌, refl, List, [], ◌∷◌, not, suc, arith, ◌==◌, inl, inr,
  length, keep, Absent,
}
use mathlib.Core.Path.{subst}
use osa_kernel_arm_boot_step.Kmem.State.{
  Ptr, Mem, Linker, hal_page_of, hal_page_size, sizeof_chunk, space_page_of, chunk_data, chunk_of,
}
use osa_kernel_arm_boot_step.Kmem.Chain.{Chain, hole_size}
use osa_kernel_arm_boot_step.Kmem.Members.{
  In, Distinct, In-keep, keep-Distinct, length-range, remove, length-remove,
}
use osa_kernel_arm_boot_step.Kmem.Sound.{page_end, IsRegion, IsChunk, IsLaid, count_on, bytes}

pub Chain-Distinct : (f : Ptr → Ptr) (p : Ptr) (xs : List Ptr) → Chain f p xs → Distinct xs
Chain-Distinct f p [] c = tt
Chain-Distinct f p (x ∷ xs) c = (c.2, Chain-Distinct f (f x) xs c.3)

-- The place of a chunk of `size` bytes in the heap.
pub record IsInside (l : Linker) (size : ℕ) (c : Ptr) : Type 0 where
  pub low : l.kheap_low ≤ hal_page_of c
  pub within : c + size + sizeof_chunk ≤ hal_page_of c + page_end
  pub high : hal_page_of c + hal_page_size ≤ l.kheap_high

module _ (l : Linker) (m : Mem) (ls hs ps fs : List Ptr) (s : IsLaid l m ls hs ps fs) where
  pub chunk-IsInside : (c : Ptr) → IsChunk ls hs c → IsInside l (hole_size m c) c
  chunk-IsInside c here =
      let at = s.placed c here in
      let page = s.pages (space_page_of c) (inl at.page) in
      record {
        low = omega (arith, page.above);
        within = omega (arith, at.within, page.offset);
        high = omega (arith, page.below);
      }

  module _ (r : IsRegion l) where
    chunk-in_region :
        (c : Ptr)
        → IsChunk ls hs c
        → (l.kheap_low ≤ c) × (c < l.kheap_low + (l.kheap_high - l.kheap_low))
    chunk-in_region c here =
        let i = chunk-IsInside c here in (omega (arith, i.low), omega (arith, i.high, r.some_page))

    pub length-chunks : Distinct ls → length ls < 2 ^ 28
    length-chunks d =
        let n =
          length-range l.kheap_low (l.kheap_high - l.kheap_low) ls d
            (λ x here. chunk-in_region x (inl here)) in
        omega (arith, n, r.pages)

    pub length-holes : Distinct hs → length hs < 2 ^ 28
    length-holes d =
        let n =
          length-range l.kheap_low (l.kheap_high - l.kheap_low) hs d
            (λ x here. chunk-in_region x (inr here)) in
        omega (arith, n, r.pages)

    -- The address of a chunk's data leads back to the chunk and its page.
    pub chunk_of-chunk_data : (c : Ptr) → IsChunk ls hs c → chunk_of (chunk_data c) ≡ c
    chunk_of-chunk_data c here = let i = chunk-IsInside c here in omega (arith, i.high, r.top)

  pub space_page_of-chunk_data :
      (c : Ptr) → IsChunk ls hs c → space_page_of (chunk_data c) ≡ space_page_of c
  space_page_of-chunk_data c here = let i = chunk-IsInside c here in omega (arith, i.within)

  bytes-le :
      (xs : List Ptr)
      → ((x : Ptr) → In x xs → IsChunk ls hs x)
      → bytes (hole_size m) xs ≤ hal_page_size * length xs
  bytes-le [] h = omega arith
  bytes-le (x ∷ xs) h =
      let i = chunk-IsInside x (h x (λ out. out.0 refl)) in
      let rest = bytes-le xs (λ a here. h a (λ out. here out.1)) in omega (arith, i.within, rest)

  pub bytes-chunks : bytes (hole_size m) ls ≤ hal_page_size * length ls
  bytes-chunks = bytes-le ls (λ x here. inl here)

pub count_on-le : (p : Ptr) (ls : List Ptr) → Distinct ls → count_on p ls ≤ hal_page_size
count_on-le p ls d =
    let f = λ (c : Ptr). space_page_of c == p in
    length-range (p - page_end) hal_page_size (keep f ls) (keep-Distinct f ls d) (λ x here.
      let i = In-keep f x ls here in
      let e : space_page_of x ≡ p = ground (arith, i.0) in (omega (arith, e), omega (arith, e)))

module _ (p : Ptr) where
  abbrev elsewhere : List Ptr → List Ptr
  elsewhere = keep (λ c. not (space_page_of c == p))

  length-elsewhere : (ls : List Ptr) → length ls ≡ count_on p ls + length (elsewhere ls)
  length-elsewhere [] = refl
  length-elsewhere (c ∷ ls) = ground (arith, length-elsewhere ls)

  count_on-elsewhere : (q : Ptr) (ls : List Ptr) → p ≢ q → count_on q (elsewhere ls) ≡ count_on q ls
  count_on-elsewhere q [] ne = refl
  count_on-elsewhere q (c ∷ ls) ne = ground (arith, count_on-elsewhere q ls ne)

-- There are at least as many chunks as pages with chunks.
length-pages :
    (ps ls : List Ptr)
    → Distinct ps
    → ((p : Ptr) → In p ps → 0 < count_on p ls)
    → length ps ≤ length ls
length-pages [] ls d h = omega arith
length-pages (p ∷ ps) ls d h =
    let rest = length-pages ps (elsewhere p ls) d.1 (λ q i.
      let ne : p ≢ q = λ e. i (subst (λ a. Absent a ps) e d.0) in
      rw (count_on-elsewhere p q ls ne) (h q (λ out. i out.1))) in
    omega (arith, length-elsewhere p ls, rest, h p (λ out. out.0 refl))

-- So with one more page there is a page without chunks beside the page `f`.
pub length-pages_but_one :
    (f : Ptr) (ps ls : List Ptr)
    → Distinct ps
    → ((p : Ptr) → In p ps → p ≢ f → 0 < count_on p ls)
    → length ps ≤ suc (length ls)
length-pages_but_one f ps ls d h =
    let rest =
      length-pages (remove f ps) ls (keep-Distinct _ ps d)
        (λ p i. let k = In-keep _ p ps i in h p k.1 (ground (arith, k.0))) in
    omega (arith, length-remove f ps d, rest)
