-- ===== src/Kmem/Malloc/Opened.antt =====
-- kmem.c: the page on which `kmalloc` places a chunk, beside the chunks in use.
use osa_kernel_arm_boot_step.Prelude.{
  ℕ, suc, ◌+◌, ◌≤◌, ◌≡◌, ◌≢◌, ◌⊎◌, refl, sym, ap, ◌∙◌, List, [], ◌∷◌, true, not, ◌&&◌, arith, ◌==◌,
  ltb, Bool-cases, inl, inr, length, keep, Absent,
}
use mathlib.Core.Path.{subst}
use osa_kernel_arm_boot_step.Kmem.State.{
  Ptr, null, Mem, Linker, sizeof_chunk, max_hole_size, space_page_of, Returns, Returns-mono, Ends,
  Ends-and_then, Returns-Ends,
}
use osa_kernel_arm_boot_step.Kmem.Chain.{Chain, page_next, hole_size}
use osa_kernel_arm_boot_step.Kmem.Members.{In, In-cons, In-keep, In-of_keep, keep-none, length-pos}
use osa_kernel_arm_boot_step.Kmem.Cleanup.{space_valloc_cleanup}
use osa_kernel_arm_boot_step.Kmem.Cleanup.Whole.{is_unused, space_valloc_cleanup-one}
use osa_kernel_arm_boot_step.Kmem.Cleanup.Sound.{space_valloc_cleanup-IsSound}
use osa_kernel_arm_boot_step.Kmem.Sound.{
  page_end, IsPage, IsPlaced, IsChunk, IsSound, pages_of, count_on,
}
use osa_kernel_arm_boot_step.Kmem.Bounds.{Chain-Distinct, length-pages_but_one}
use osa_kernel_arm_boot_step.Kmem.Layout.{IsPage-same}
use osa_kernel_arm_boot_step.Kmem.Malloc.{cleanup_if_needed, take_free_page, page_with_room}
use osa_kernel_arm_boot_step.Kmem.Malloc.Taken.{
  taken, take_free_page-taken, taken-HasLists, Absent-all,
}

-- The chunks in use are `ls` with the sizes that they had, on some lists.
pub record Kept (l : Linker) (m : Mem) (ls hs0 : List Ptr) (m' : Mem) : Type 0 where
  pub hs : List Ptr
  pub ps : List Ptr
  pub fs : List Ptr
  pub sound : IsSound l m' ls hs ps fs
  pub sizes : (d : Ptr) → In d ls → hole_size m' d ≡ hole_size m d
  pub fewer : (x : Ptr) → In x hs → In x hs0

-- The page is in use and has room for a chunk of `size` bytes.
pub record Roomy (l : Linker) (size : ℕ) (m : Mem) (ls hs0 : List Ptr) (page : Ptr) (m' : Mem)
    : Type 0 where
  pub kept : Kept l m ls hs0 m'
  pub here : In page kept.ps
  pub room : (m'.page page).offset + size + sizeof_chunk ≤ page_end

module _ (l : Linker) (size : ℕ) (small : size ≤ max_hole_size) (m0 : Mem) (ls hs0 : List Ptr) where
  module _ (m : Mem) (hs ps : List Ptr) (x : Ptr) (fs : List Ptr)
      (s : IsSound l m ls hs ps (x ∷ fs)) where
    abbrev opened : Mem
    opened = taken m hs ps x fs s.lists

    out : Absent x ps
    out = Absent-all x ps fs (s.lists).apart

    page-differs : (p : Ptr) → In p ps → x ≢ p
    page-differs p i e = i (subst (λ a. Absent a ps) e out)

    opened-IsPage : (p : Ptr) → In p (x ∷ ps) ⊎ In p fs → IsPage l opened p
    opened-IsPage p i = elim (Bool-cases (x == p)) [
      | inl e ↦
          let xp : x ≡ p = ground arith in
          let w = (s.laid).pages x (inr (λ o. o.0 refl)) in
          rw (sym xp) (record {
            header = w.header;
            above = w.above;
            below = w.below;
            start = ground (arith, w.start);
            end = ground (arith, w.end);
            offset = ground (arith, w.start);
            owner = ground (arith, w.owner);
          })
      | inr ne ↦
          let nx : x ≢ p = ground arith in
          let w = (s.laid).pages p (opened-in p nx i) in
          IsPage-same l m opened p w (ground arith) (ground arith) (ground arith) (ground arith)
    ]
      where
        opened-in : (p : Ptr) → x ≢ p → In p (x ∷ ps) ⊎ In p fs → In p ps ⊎ In p (x ∷ fs)
        opened-in p nx (inl i) = inl (λ o. i ((λ e. nx (sym e)), o))
        opened-in p nx (inr i) = inr (λ o. i o.1)

    opened-IsPlaced : (c : Ptr) → IsChunk ls hs c → IsPlaced opened (x ∷ ps) c
    opened-IsPlaced c i =
        let at = (s.laid).placed c i in
        let nx = page-differs (space_page_of c) at.page in
        record { page = λ o. at.page o.1; within = ground (arith, at.within) }

    opened-count : (p : Ptr) → In p (x ∷ ps) → (opened.page p).nchunks ≡ count_on p ls
    opened-count p i = elim (In-cons p x ps i) [
      | inl e ↦
          let none_here : keep (λ c. space_page_of c == x) ls ≡ [] =
            keep-none (λ c. space_page_of c == x) ls
              (λ c ic.
                let nx = page-differs (space_page_of c) (((s.laid).placed c (inl ic)).page) in
                ground arith) in
          rw e (ground (arith, ap length none_here))
      | inr there ↦ let nx = page-differs p there in ground (arith, (s.counted).nchunks p there)
    ]

    opened-IsSound : IsSound l opened ls hs (x ∷ ps) fs
    opened-IsSound = record {
      lists = taken-HasLists m hs ps x fs s.lists;
      laid = record { pages = opened-IsPage; placed = opened-IsPlaced; apart = (s.laid).apart };
      counted = record {
        nchunks = opened-count;
        total = (s.counted).total;
        allocated = (s.counted).allocated;
      };
      distinct = s.distinct;
      fresh = s.fresh;
      first = λ o. s.first o.1;
      whole = omega (arith, s.whole);
    }

    opened-Roomy :
        ((d : Ptr) → In d ls → hole_size m d ≡ hole_size m0 d)
        → ((y : Ptr) → In y hs → In y hs0)
        → Roomy l size m0 ls hs0 x opened
    opened-Roomy sizes fewer =
        let w = (s.laid).pages x (inr (λ o. o.0 refl)) in
        record {
          kept = record {
            hs = hs;
            ps = x ∷ ps;
            fs = fs;
            sound = opened-IsSound;
            sizes = sizes;
            fewer = fewer;
          };
          here = λ o. o.0 refl;
          room = ground (arith, w.start);
        }

  -- No page beside the first one is without chunks in use.
  abbrev Full : Type 0
  Full = pages_of l ≤ suc (length ls)

  take_free_page-pages :
      (m : Mem) (hs ps fs : List Ptr)
      → IsSound l m ls hs ps fs
      → ((d : Ptr) → In d ls → hole_size m d ≡ hole_size m0 d)
      → ((y : Ptr) → In y hs → In y hs0)
      → (fs ≡ [] → Full)
      → Ends Full (Roomy l size m0 ls hs0) (take_free_page m)
  unfolding take_free_page
  take_free_page-pages m hs ps [] s sizes fewer full = rw ((s.lists).free) (full refl)
  take_free_page-pages m hs ps (x ∷ fs) s sizes fewer full =
      rw (take_free_page-taken m hs ps x fs s.lists) (opened-Roomy m hs ps x fs s sizes fewer)

  -- After the clean-up there is a free page, or no page beside the first one is without chunks.
  record Swept (m : Mem) : Type 0 where
    kept : Kept l m0 ls hs0 m
    full : kept.fs ≡ [] → Full

  -- All pages are in use, and each but the first holds a chunk in use.
  full-of :
      (m : Mem) (hs ps fs : List Ptr)
      → IsSound l m ls hs ps fs
      → ((p : Ptr) → In p ps → p ≢ (m.alloc).first → (m.page p).nchunks ≢ 0)
      → fs ≡ []
      → Full
  full-of m hs ps fs s filled e =
      let n =
        length-pages_but_one (m.alloc).first ps ls (Chain-Distinct _ _ ps (s.lists).used)
          (λ p i ne. let f = filled p i ne in omega (arith, (s.counted).nchunks p i, f)) in
      omega (arith, n, s.whole, ap length e)

  cleanup-Swept :
      (m : Mem) → Kept l m0 ls hs0 m → Returns (λ _ m'. Swept m') (space_valloc_cleanup m)
  cleanup-Swept m k = elim (Bool-cases ((m.alloc).npages == 1)) [
    | inl one ↦ rw (space_valloc_cleanup-one m (ground arith)) (record {
      kept = k;
      full = λ e.
          let s = k.sound in
          let np : (m.alloc).npages ≡ 1 = ground arith in
          omega (arith, s.whole, (s.lists).npages, ap length e, np);
    })
    | inr several ↦
        Returns-mono _ _ (space_valloc_cleanup m)
          (space_valloc_cleanup-IsSound l m ls k.hs k.ps k.fs k.sound (ground arith))
          (λ _ m' w. record {
            kept = record {
              hs = _;
              ps = _;
              fs = _;
              sound = w.0;
              sizes = λ d i. w.1 d ∙ k.sizes d i;
              fewer = λ y i. k.fewer y ((In-keep _ y k.hs i).1);
            };
            full = λ e. full-of m' _ _ _ w.0 w.2 e;
          })
  ]

  -- No free page and no unused one: all pages hold chunks in use.
  no_unused : (m : Mem) (k : Kept l m0 ls hs0 m) → (m.alloc).nzpages ≡ 0 → k.fs ≡ [] → Full
  no_unused m k nz e =
      let s = k.sound in
      full-of m k.hs k.ps k.fs s
        (λ p i ne z.
          let on : is_unused m p ≡ true = ground arith in
          let some_unused = length-pos p _ (In-of_keep (is_unused m) p k.ps on i) in
          absurd (omega (arith, (s.lists).nzpages, nz, some_unused)))
        e

  cleanup_if_needed-Swept :
      (m : Mem) → Kept l m0 ls hs0 m → Returns (λ _ m'. Swept m') (cleanup_if_needed m)
  unfolding cleanup_if_needed space_valloc_cleanup
  cleanup_if_needed-Swept m k =
      elim (Bool-cases (((m.alloc).free_pages == null) && not ((m.alloc).nzpages == 0))) [
        | inl on ↦ rw on (cleanup-Swept m k)
        | inr off ↦ rw off (record {
          kept = k;
          full = λ e.
              let s = k.sound in
              let none_free : (m.alloc).free_pages ≡ null =
                subst (λ xs. Chain (page_next m) (m.alloc).free_pages xs) e (s.lists).free in
              no_unused m k (ground (arith, none_free)) e;
        })
      ]

  current : (m : Mem) (hs ps fs : List Ptr) → IsSound l m ls hs ps fs → In (m.alloc).pages ps
  current m hs [] fs s = absurd (s.first tt)
  current m hs (p ∷ ps) fs s = λ o. o.0 (((s.lists).used).0)

  -- The current page if it has room, else a free page, if there is one or the clean-up finds one.
  pub page_with_room-Roomy :
      (ps fs : List Ptr)
      → IsSound l m0 ls hs0 ps fs
      → Ends (pages_of l ≤ suc (length ls)) (Roomy l size m0 ls hs0) (page_with_room size m0)
  unfolding page_with_room cleanup_if_needed take_free_page space_valloc_cleanup
  page_with_room-Roomy ps fs s =
      let header = m0.page (m0.alloc).pages in
      let here = current m0 hs0 ps fs s in
      let kept : Kept l m0 ls hs0 m0 = record {
        hs = hs0;
        ps = ps;
        fs = fs;
        sound = s;
        sizes = λ d i. refl;
        fewer = λ y i. i;
      } in
      let w = (s.laid).pages (m0.alloc).pages (inl here) in
      elim (Bool-cases (ltb header.end (header.offset + (size + sizeof_chunk)))) [
        | inl full ↦ rw full (
            Ends-and_then Full (λ _ m'. Swept m') (Roomy l size m0 ls hs0) (cleanup_if_needed m0)
              (λ _. take_free_page)
              (Returns-Ends Full (λ _ m'. Swept m') (λ _ m'. Swept m') (cleanup_if_needed m0)
                (cleanup_if_needed-Swept m0 kept) (λ _ m' k. k))
              (λ _ m' k.
                let kk = k.kept in
                take_free_page-pages m' kk.hs kk.ps kk.fs kk.sound kk.sizes kk.fewer k.full))
        | inr fits ↦ rw fits (record { kept = kept; here = here; room = ground (arith, w.end) })
      ]
