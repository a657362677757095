-- ===== src/Kmem/Cleanup/Sound.antt =====
-- kmem.c: `space_valloc_cleanup` and the chunks in use.
use osa_kernel_arm_boot_step.Prelude.{
  ◌<◌, ◌≡◌, ◌≢◌, ◌∙◌, ◌⊎◌, sym, List, true, not, arith, ◌==◌, inl, inr, keep,
}
use mathlib.Core.Path.{subst}
use osa_kernel_arm_boot_step.Kmem.State.{Ptr, Mem, Linker, space_page_of, Returns, Returns-mono}
use osa_kernel_arm_boot_step.Kmem.Chain.{hole_size}
use osa_kernel_arm_boot_step.Kmem.Members.{
  In, In-keep, In-of_keep, Absent-of_keep, Absent-or_In, All-found, length-pos,
}
use osa_kernel_arm_boot_step.Kmem.Cleanup.{reclaimable, space_valloc_cleanup}
use osa_kernel_arm_boot_step.Kmem.Cleanup.Holes.{stays}
use osa_kernel_arm_boot_step.Kmem.Cleanup.Moved.{releases}
use osa_kernel_arm_boot_step.Kmem.Cleanup.Whole.{
  Emptied, releases-Absent, length-releases, space_valloc_cleanup-Emptied,
}
use osa_kernel_arm_boot_step.Kmem.Sound.{IsChunk, IsSound, count_on}
use osa_kernel_arm_boot_step.Kmem.Layout.{IsLaid-subset, bytes-same}

module _ (l : Linker) (m : Mem) (ls hs ps fs : List Ptr) (s : IsSound l m ls hs ps fs) where
  abbrev left_pages : List Ptr
  left_pages = keep (λ p. not (reclaimable m p)) ps

  -- The page of a chunk in use is not taken back.
  used-page : (c : Ptr) → In c ls → In (space_page_of c) left_pages
  used-page c i =
      let page = space_page_of c in
      let at = (s.laid).placed c (inl i) in
      let on : In c (keep (λ d. space_page_of d == page) ls) = In-of_keep _ c ls (ground arith) i in
      let some_chunk : 0 < count_on page ls = length-pos c _ on in
      let stay : not (reclaimable m page) ≡ true =
        ground (arith, (s.counted).nchunks page at.page, some_chunk) in
      In-of_keep _ page ps stay at.page

  module _ (m' : Mem) (e : Emptied m hs ps fs m') where
    Emptied-page :
        (p : Ptr) → In p left_pages ⊎ In p (releases (reclaimable m) ps fs) → In p ps ⊎ In p fs
    Emptied-page p (inl i) = inl ((In-keep _ p ps i).1)
    Emptied-page p (inr i) = elim (Absent-or_In p ps) [
      | inr here ↦ inl here
      | inl out ↦ inr (λ out'. i (releases-Absent (reclaimable m) p ps fs out out'))
    ]

    Emptied-on : (c : Ptr) → IsChunk ls (keep (stays m) hs) c → In (space_page_of c) left_pages
    Emptied-on c (inl i) = used-page c i
    Emptied-on c (inr i) = All-found _ c _ ((e.lists).on_pages) i

    Emptied-IsChunk : (c : Ptr) → IsChunk ls (keep (stays m) hs) c → IsChunk ls hs c
    Emptied-IsChunk c (inl i) = inl i
    Emptied-IsChunk c (inr i) = inr ((In-keep _ c hs i).1)

    Emptied-IsSound :
        IsSound l m' ls (keep (stays m) hs) left_pages (releases (reclaimable m) ps fs)
    Emptied-IsSound =
        let b = bytes-same (hole_size m) (hole_size m') ls (λ x i. e.sizes x) in
        let first : not (reclaimable m (m.alloc).first) ≡ true = ground arith in
        record {
          lists = e.lists;
          laid =
              IsLaid-subset l m m' ls ls hs _ ps left_pages fs _ s.laid
                (record {
                  size = e.sizes;
                  start = (e.fields).start;
                  end = (e.fields).end;
                  offset = (e.fields).offset;
                  allocator = (e.fields).allocator;
                })
                Emptied-IsChunk Emptied-page Emptied-on;
          counted = record {
            nchunks = λ p i. e.nchunks p ∙ (s.counted).nchunks p ((In-keep _ p ps i).1);
            total = e.total ∙ (s.counted).total;
            allocated = e.allocated ∙ (s.counted).allocated ∙ sym b;
          };
          distinct = s.distinct;
          fresh = λ c i. Absent-of_keep (stays m) c hs (s.fresh c i);
          first =
              subst (λ a. In a left_pages) (sym e.first)
                (In-of_keep _ (m.alloc).first ps first s.first);
          whole = omega (arith, length-releases (reclaimable m) ps fs, s.whole);
        }

    Emptied-filled : (p : Ptr) → In p left_pages → p ≢ (m'.alloc).first → (m'.page p).nchunks ≢ 0
    Emptied-filled p i ne z =
        let stay = (In-keep _ p ps i).0 in
        let first = e.first in let same = e.nchunks p in absurd (ground (arith, stay, first, same))

  -- The clean-up leaves the chunks in use where they are, with their sizes, and each page
  -- in use but the first with a chunk.
  pub space_valloc_cleanup-IsSound :
      (m.alloc).npages ≢ 1
      → Returns
          (λ _ m'.
            IsSound l m' ls (keep (stays m) hs) left_pages (releases (reclaimable m) ps fs)
            × ((a : Ptr) → hole_size m' a ≡ hole_size m a)
            × ((p : Ptr) → In p left_pages → p ≢ (m'.alloc).first → (m'.page p).nchunks ≢ 0))
          (space_valloc_cleanup m)
  space_valloc_cleanup-IsSound several =
      Returns-mono (λ _ m'. Emptied m hs ps fs m') _ (space_valloc_cleanup m)
        (space_valloc_cleanup-Emptied m hs ps fs s.lists several)
        (λ _ m' e. (Emptied-IsSound m' e, e.sizes, Emptied-filled m' e))
