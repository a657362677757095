-- ===== src/Kmem/Free/Sound.antt =====
-- kmem.c: `kfree` and the chunks in use.
use osa_kernel_arm_boot_step.Prelude.{
  ℕ, suc, ◌+◌, ◌≤◌, ◌≡◌, refl, sym, ap, List, [], ◌∷◌, arith, ◌==◌, if◌then◌else◌, Bool-cases, inl,
  inr, length, Absent,
}
use mathlib.Core.Path.{subst}
use osa_kernel_arm_boot_step.Kmem.State.{
  Ptr, Mem, Linker, ok, Returns, chunk_of, chunk_data, space_page_of,
}
use osa_kernel_arm_boot_step.Kmem.Chain.{hole_size}
use osa_kernel_arm_boot_step.Kmem.Members.{
  In, Distinct, In-cons, In-keep, remove, remove-Absent, keep-Distinct,
}
use osa_kernel_arm_boot_step.Kmem.Cleanup.Whole.{HasLists}
use osa_kernel_arm_boot_step.Kmem.Sound.{
  IsRegion, IsPlaced, IsChunk, IsCounted, IsSound, count_on, bytes,
}
use osa_kernel_arm_boot_step.Kmem.Bounds.{
  Chain-Distinct, chunk-IsInside, chunk_of-chunk_data, space_page_of-chunk_data, length-holes,
  length-chunks, bytes-chunks, count_on-le,
}
use osa_kernel_arm_boot_step.Kmem.Layout.{SameLayout, IsLaid-subset, bytes-same}
use osa_kernel_arm_boot_step.Kmem.Free.{freed, kfree}
use osa_kernel_arm_boot_step.Kmem.Free.Whole.{kfree-runs}

module _ (c : Ptr) where
  bytes-remove :
      (f : Ptr → ℕ) (ls : List Ptr)
      → Distinct ls
      → In c ls
      → bytes f ls ≡ f c + bytes f (remove c ls)
  bytes-remove f [] d here = absurd (here tt)
  bytes-remove f (x ∷ ls) d here = elim (Bool-cases (x == c)) [
    | inl e ↦
        let xc : x ≡ c = ground arith in
        let out : Absent c ls = subst (λ a. Absent a ls) xc d.0 in
        rw (e, remove-Absent c ls out) (ap (λ a. f a + bytes f ls) xc)
    | inr ne ↦
        let rest = bytes-remove f ls d.1 (λ out. here (ground arith, out)) in
        rw ne (omega (arith, rest))
  ]

  pub length-remove_one :
      (ls : List Ptr) → Distinct ls → In c ls → length ls ≡ suc (length (remove c ls))
  length-remove_one [] d here = absurd (here tt)
  length-remove_one (x ∷ ls) d here = elim (Bool-cases (x == c)) [
    | inl e ↦
        let xc : x ≡ c = ground arith in
        let out : Absent c ls = subst (λ a. Absent a ls) xc d.0 in
        rw (e, remove-Absent c ls out) refl
    | inr ne ↦
        let rest = length-remove_one ls d.1 (λ out. here (ground arith, out)) in
        rw ne (omega (arith, rest))
  ]

  count_on-remove :
      (p : Ptr) (ls : List Ptr)
      → Distinct ls
      → In c ls
      → count_on p ls ≡ (if space_page_of c == p then 1 else 0) + count_on p (remove c ls)
  count_on-remove p [] d here = absurd (here tt)
  count_on-remove p (x ∷ ls) d here = elim (Bool-cases (x == c)) [
    | inl e ↦
        let xc : x ≡ c = ground arith in
        let out : Absent c ls = subst (λ a. Absent a ls) xc d.0 in
        let same : (space_page_of x == p) ≡ (space_page_of c == p) =
          ap (λ a. space_page_of a == p) xc in
        rw (e, remove-Absent c ls out, same) (ground arith)
    | inr ne ↦
        let rest = count_on-remove p ls d.1 (λ out. here (ground arith, out)) in
        rw ne (ground (arith, rest))
  ]

module _ (l : Linker) (r : IsRegion l) (m : Mem) (ls hs ps fs : List Ptr)
    (s : IsSound l m ls hs ps fs) (c : Ptr) (here : In c ls) where
  abbrev after : Mem
  after = freed c (space_page_of c) m

  placed : IsPlaced m ps c
  placed = (s.laid).placed c (inl here)

  page_count : (m.page (space_page_of c)).nchunks ≡ count_on (space_page_of c) ls
  page_count = (s.counted).nchunks (space_page_of c) (placed.page)

  one-more : count_on (space_page_of c) ls ≡ suc (count_on (space_page_of c) (remove c ls))
  one-more = ground (arith, count_on-remove c (space_page_of c) ls s.distinct here)

  page_bound : count_on (space_page_of c) ls ≤ 4096
  page_bound = count_on-le (space_page_of c) ls s.distinct

  freed-SameLayout : SameLayout m after
  unfolding freed
  freed-SameLayout = record {
    size = λ a. ground arith;
    start = λ a. ground arith;
    end = λ a. ground arith;
    offset = λ a. ground arith;
    allocator = λ a. ground arith;
  }

  freed-IsChunk : (d : Ptr) → IsChunk (remove c ls) (c ∷ hs) d → IsChunk ls hs d
  freed-IsChunk d (inl i) = inl ((In-keep _ d ls i).1)
  freed-IsChunk d (inr i) = elim (In-cons d c hs i) [
    | inl e ↦ inl (subst (λ a. In a ls) (sym e) here)
    | inr there ↦ inr there
  ]

  freed-nchunks : (p : Ptr) → In p ps → (after.page p).nchunks ≡ count_on p (remove c ls)
  unfolding freed
  freed-nchunks p i =
      let one = count_on-remove c p ls s.distinct here in
      let before = (s.counted).nchunks p i in
      elim (Bool-cases (space_page_of c == p)) [
        | inl e ↦
            let cp : space_page_of c ≡ p = ground arith in
            let bound = count_on-le p ls s.distinct in ground (arith, one, before, bound)
        | inr ne ↦ ground (arith, one, before)
      ]

  freed-IsCounted : IsCounted after (remove c ls) ps
  unfolding freed
  freed-IsCounted =
      let b = bytes-remove c (hole_size m) ls s.distinct here in
      let b' =
        bytes-same (hole_size m) (hole_size after) (remove c ls)
          (λ x i. (freed-SameLayout).size x) in
      let n = length-remove_one c ls s.distinct here in
      let few = length-chunks l m ls hs ps fs s.laid r s.distinct in
      let bound = bytes-chunks l m ls hs ps fs s.laid in
      record {
        nchunks = freed-nchunks;
        total = omega (arith, (s.counted).total, n, few);
        allocated = omega (arith, (s.counted).allocated, b, b', few, bound);
      }

  runs :
      (kfree l (chunk_data c) m
        ≡ ok tt (freed (chunk_of (chunk_data c)) (space_page_of (chunk_data c)) m))
      × HasLists
          (freed (chunk_of (chunk_data c)) (space_page_of (chunk_data c)) m)
          (chunk_of (chunk_data c) ∷ hs)
          ps
          fs
  runs =
      let back = chunk_of-chunk_data l m ls hs ps fs s.laid r c (inl here) in
      let page = space_page_of-chunk_data l m ls hs ps fs s.laid c (inl here) in
      let inside = chunk-IsInside l m ls hs ps fs s.laid c (inl here) in
      let d = Chain-Distinct _ _ hs ((s.lists).holes).chain in
      let b = bytes-remove c (hole_size m) ls s.distinct here in
      let owner = ((s.laid).pages (space_page_of c) (inl placed.page)).owner in
      kfree-runs l (chunk_data c) m hs ps fs s.lists
        (λ e. absurd (omega (arith, e, back, inside.low, r.not_null))) (rw back (s.fresh c here))
        (omega (arith, length-holes l m ls hs ps fs s.laid r d)) (rw (back, page) refl)
        (rw page placed.page) (rw page owner) (rw back (omega (arith, (s.counted).allocated, b)))
        (rw page (omega (arith, page_count, one-more)))
        (rw page (omega (arith, page_count, page_bound)))

  freed-fresh : (d : Ptr) → In d (remove c ls) → Absent d (c ∷ hs)
  freed-fresh d i = let k = In-keep _ d ls i in (ground (arith, k.0), s.fresh d k.1)

  -- On a sound heap, a chunk in use is freed without a halt. The heap is sound with the chunk as
  -- the first hole and the other chunks in use, which keep their addresses and sizes.
  pub kfree-IsSound :
      Returns
        (λ _ m'.
          IsSound l m' (remove c ls) (c ∷ hs) ps fs × ((a : Ptr) → hole_size m' a ≡ hole_size m a))
        (kfree l (chunk_data c) m)
  unfolding freed
  kfree-IsSound =
      let back = chunk_of-chunk_data l m ls hs ps fs s.laid r c (inl here) in
      let page = space_page_of-chunk_data l m ls hs ps fs s.laid c (inl here) in
      rw (runs.0) (
        rw (back, page)
          (
            record {
              lists = rw (back, page) at runs.1;
              laid =
                  IsLaid-subset l m after ls (remove c ls) hs (c ∷ hs) ps ps fs fs s.laid
                    freed-SameLayout freed-IsChunk (λ p i. i)
                    (λ d i. ((s.laid).placed d (freed-IsChunk d i)).page);
              counted = freed-IsCounted;
              distinct = keep-Distinct _ ls s.distinct;
              fresh = freed-fresh;
              first = s.first;
              whole = s.whole;
            },
            (freed-SameLayout).size,
          ))
