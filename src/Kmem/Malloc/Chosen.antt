-- ===== src/Kmem/Malloc/Chosen.antt =====
-- kmem.c: the chunk that `kmalloc` has chosen, up to the label `done`, and its counting behind it.
use osa_kernel_arm_boot_step.Prelude.{
  ◌+◌, ◌<◌, ◌^◌, ◌≡◌, refl, List, ◌∷◌, arith, inl, length, Absent,
}
use osa_kernel_arm_boot_step.Kmem.State.{Ptr, Mem, Linker, ok, chunk_data, space_page_of}
use osa_kernel_arm_boot_step.Kmem.Members.{In, Distinct}
use osa_kernel_arm_boot_step.Kmem.Cleanup.Whole.{HasLists}
use osa_kernel_arm_boot_step.Kmem.Sound.{IsRegion, IsLaid, IsCounted, IsSound, pages_of, count_on}
use osa_kernel_arm_boot_step.Kmem.Bounds.{bytes-chunks, count_on-le, length-chunks}
use osa_kernel_arm_boot_step.Kmem.Layout.{SameLayout, IsLaid-subset}
use osa_kernel_arm_boot_step.Kmem.Malloc.{finish}
use osa_kernel_arm_boot_step.Kmem.Malloc.Counted.{counted, finish-runs}

-- The chunk `c` is laid out as one more of the chunks in use, and is not counted yet.
pub record Chosen (l : Linker) (m : Mem) (c : Ptr) (ls hs ps fs : List Ptr) : Type 0 where
  pub lists : HasLists m hs ps fs
  pub laid : IsLaid l m (c ∷ ls) hs ps fs
  pub counted : IsCounted m ls ps
  pub distinct : Distinct (c ∷ ls)
  pub fresh : (d : Ptr) → In d (c ∷ ls) → Absent d hs
  pub first : In (m.alloc).first ps
  pub whole : length ps + length fs ≡ pages_of l

module _ (l : Linker) (r : IsRegion l) (m : Mem) (c : Ptr) (ls hs ps fs : List Ptr)
    (w : Chosen l m c ls hs ps fs) where
  abbrev after : Mem
  after = counted c (space_page_of c) m

  counted-SameLayout : SameLayout m after
  counted-SameLayout = record {
    size = λ a. refl;
    start = λ a. ground arith;
    end = λ a. ground arith;
    offset = λ a. ground arith;
    allocator = λ a. ground arith;
  }

  counted-page : (m.page (space_page_of c)).nchunks + 1 < 2 ^ 16
  counted-page =
      let here = (w.laid).placed c (inl (λ out. out.0 refl)) in
      omega (
        arith,
        (w.counted).nchunks (space_page_of c) here.page,
        count_on-le (space_page_of c) ls (w.distinct).1,
      )

  counted-nchunks : (p : Ptr) → In p ps → (after.page p).nchunks ≡ count_on p (c ∷ ls)
  counted-nchunks p here = ground (arith, (w.counted).nchunks p here, counted-page)

  counted-IsCounted : IsCounted after (c ∷ ls) ps
  counted-IsCounted =
      let n = length-chunks l m (c ∷ ls) hs ps fs w.laid r w.distinct in
      let b = bytes-chunks l m (c ∷ ls) hs ps fs w.laid in
      record {
        nchunks = counted-nchunks;
        total = omega (arith, (w.counted).total, n);
        allocated = omega (arith, (w.counted).allocated, n, b);
      }

  pub finish-IsSound :
      (finish c (space_page_of c) m ≡ ok (chunk_data c) after) × IsSound l after (c ∷ ls) hs ps fs
  finish-IsSound =
      let here = (w.laid).placed c (inl (λ out. out.0 refl)) in
      let f = finish-runs c (space_page_of c) m hs ps fs w.lists here.page counted-page in
      (
        f.0,
        record {
          lists = f.1;
          laid =
              IsLaid-subset l m after (c ∷ ls) (c ∷ ls) hs hs ps ps fs fs w.laid counted-SameLayout
                (λ d i. i) (λ p i. i) (λ d i. ((w.laid).placed d i).page);
          counted = counted-IsCounted;
          distinct = w.distinct;
          fresh = w.fresh;
          first = w.first;
          whole = w.whole;
        },
      )
