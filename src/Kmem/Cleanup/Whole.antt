-- ===== src/Kmem/Cleanup/Whole.antt =====
-- kmem.c: `space_valloc_cleanup` as a whole, on the lists of holes, of pages and of free pages.
use mathlib.Core.Path.{fun_ext, subst}
use osa_kernel_arm_boot_step.Prelude.{
  ℕ, ◌+◌, ◌<◌, ◌^◌, ◌≡◌, ◌≢◌, refl, sym, ap, ◌∙◌, List, [], ◌∷◌, Bool, true, false, not, arith,
  ◌==◌, Bool-cases, inl, inr, length, keep, Absent, All,
}
use osa_kernel_arm_boot_step.Kmem.State.{
  Chunk, SpacePage, SpaceValloc, Ptr, null, space_page_of, Mem, ok, Returns, Returns-mono,
  Returns-and_then,
}
use osa_kernel_arm_boot_step.Kmem.Chain.{Chain, page_next, null-Absent, HasHoles, hole_size}
use osa_kernel_arm_boot_step.Kmem.Cleanup.{clean_pages, reclaimable, space_valloc_cleanup}
use osa_kernel_arm_boot_step.Kmem.Cleanup.Holes.{stays, Swept, clean_holes-keep, length-keep}
use osa_kernel_arm_boot_step.Kmem.Cleanup.Moved.{releases, live, Cleaned, SameFields}
use osa_kernel_arm_boot_step.Kmem.Cleanup.Pages.{clean_pages-Cleaned, Absent-cons}

-- The page counts no chunk.
abbrev pub is_unused : Mem → Ptr → Bool
is_unused m p = (m.page p).nchunks == 0

-- The lists of holes, of pages in use and of free pages, with their counters. A hole lies on a page
-- in use, and no page in use is free.
pub record HasLists (m : Mem) (hs ps fs : List Ptr) : Type 0 where
  pub holes : HasHoles m hs
  pub used : Chain (page_next m) (m.alloc).pages ps
  pub free : Chain (page_next m) (m.alloc).free_pages fs
  pub apart : All (λ p. Absent p fs) ps
  pub on_pages : All (λ h. ¬ Absent (space_page_of h) ps) hs
  pub npages : (m.alloc).npages ≡ length ps
  pub nzpages : (m.alloc).nzpages ≡ length (keep (is_unused m) ps)
  pub free_npages : (m.alloc).free_npages ≡ length fs
  pub few : length ps + length fs < 2 ^ 16

module _ (dead : Ptr → Bool) where
  pub releases-Absent :
      (a : Ptr) (xs fs : List Ptr) → Absent a xs → Absent a fs → Absent a (releases dead xs fs)
  unfolding releases
  releases-Absent a [] fs o of = of
  releases-Absent a (x ∷ xs) fs o of = elim (Bool-cases (dead x)) [
    | inl gone ↦ rw gone (releases-Absent a xs (x ∷ fs) o.1 (o.0, of))
    | inr here ↦ rw here (releases-Absent a xs fs o.1 of)
  ]

  pub length-releases :
      (xs fs : List Ptr)
      → length (releases dead xs fs) + length (keep (live dead) xs) ≡ length xs + length fs
  unfolding releases
  length-releases [] fs = ground arith
  length-releases (x ∷ xs) fs = ground (arith, length-releases xs (x ∷ fs), length-releases xs fs)

  -- The pages that stay are none of the free ones.
  releases-apart :
      (next : Ptr → Ptr) (p : Ptr) (xs fs : List Ptr)
      → Chain next p xs
      → All (λ a. Absent a fs) xs
      → All (λ a. Absent a (releases dead xs fs)) (keep (live dead) xs)
  unfolding releases
  releases-apart next p [] fs c all = tt
  releases-apart next p (x ∷ xs) fs c all = elim (Bool-cases (dead x)) [
    | inl gone ↦
        rw gone (releases-apart next (next x) xs (x ∷ fs) c.3 (Absent-cons x xs fs c.2 all.1))
    | inr here ↦
        rw here (releases-Absent x xs fs c.2 all.0, releases-apart next (next x) xs fs c.3 all.1)
  ]

  -- Only unused pages are taken back, so as many unused pages are lost as pages.
  length-unused :
      (unused : Ptr → Bool) (xs : List Ptr)
      → ((a : Ptr) → dead a ≡ true → unused a ≡ true)
      → length (keep unused xs) + length (keep (live dead) xs)
        ≡ length xs + length (keep unused (keep (live dead) xs))
  length-unused unused [] h = ground arith
  length-unused unused (x ∷ xs) h = ground (arith, length-unused unused xs h, h x)

  -- A page that stays is still in the list.
  keep-page :
      (p : Ptr) (xs : List Ptr) → dead p ≡ false → Absent p (keep (live dead) xs) → Absent p xs
  keep-page p [] here out = tt
  keep-page p (x ∷ xs) here out = ground (arith, keep-page p xs here)

  keep-on_pages :
      (hs ps : List Ptr)
      → All (λ h. ¬ Absent (space_page_of h) ps) hs
      → All
          (λ h. ¬ Absent (space_page_of h) (keep (live dead) ps))
          (keep (λ h. not (dead (space_page_of h))) hs)
  keep-on_pages [] ps all = tt
  keep-on_pages (h ∷ hs) ps all = elim (Bool-cases (dead (space_page_of h))) [
    | inl gone ↦ rw gone (keep-on_pages hs ps all.1)
    | inr here ↦
        rw here
          ((λ out. all.0 (keep-page (space_page_of h) ps here out)), keep-on_pages hs ps all.1)
  ]

-- The lists after a clean-up, and what it leaves as it is.
pub record Emptied (m : Mem) (hs ps fs : List Ptr) (m' : Mem) : Type 0 where
  pub lists :
      HasLists m'
        (keep (stays m) hs)
        (keep (λ p. not (reclaimable m p)) ps)
        (releases (reclaimable m) ps fs)
  pub sizes : (a : Ptr) → hole_size m' a ≡ hole_size m a
  pub fields : SameFields m m'
  pub nchunks : (a : Ptr) → (m'.page a).nchunks ≡ (m.page a).nchunks
  pub first : (m'.alloc).first ≡ (m.alloc).first
  pub total : (m'.alloc).nchunks ≡ (m.alloc).nchunks
  pub allocated : (m'.alloc).allocated ≡ (m.alloc).allocated

module _ (m : Mem) (hs ps fs : List Ptr) (w : HasLists m hs ps fs) where
  abbrev dead_page : Ptr → Bool
  dead_page = reclaimable m

  -- The loop over the holes touches neither the pages nor the fields about them.
  module _ (k : Mem) (s : Swept m hs k) where
    kept_field :
        {A : Type 0} (f : SpaceValloc → A)
        → ((a : SpaceValloc) (p : Ptr) (n : ℕ) → f (record a { holes = p; nholes = n }) ≡ f a)
        → f k.alloc ≡ f m.alloc
    kept_field f same = ap f (s.kept).alloc ∙ same (m.alloc) (k.alloc).holes (k.alloc).nholes

    kept_pages : (a : Ptr) → k.page a ≡ m.page a
    kept_pages a = ap (λ (g : Ptr → SpacePage). g a) (s.kept).pages

    Swept-reclaimable : (a : Ptr) → reclaimable k a ≡ reclaimable m a
    Swept-reclaimable a =
        let first : (k.alloc).first ≡ (m.alloc).first = kept_field (λ v. v.first) (λ v p n. refl) in
        let count : (k.page a).nchunks ≡ (m.page a).nchunks =
          ap (λ (g : SpacePage). g.nchunks) (kept_pages a) in
        rw (first, count) refl

    kept-Chain :
        (f : SpaceValloc → Ptr) (xs : List Ptr)
        → f k.alloc ≡ f m.alloc
        → Chain (page_next m) (f m.alloc) xs
        → Chain (page_next k) (f k.alloc) xs
    kept-Chain f xs e c = rw e (
        subst (λ (g : Ptr → SpacePage). Chain (λ p. (g p).next) (f m.alloc) xs) (sym (s.kept).pages)
          c)

    pages_loop :
        Returns
          (λ _ m'. Cleaned dead_page null ps fs k m')
          (clean_pages ((m.alloc).npages + 1) null (k.alloc).pages 0 k)
    pages_loop =
        let pages : (k.alloc).pages ≡ (m.alloc).pages = kept_field (λ v. v.pages) (λ v p n. refl) in
        let free : (k.alloc).free_pages ≡ (m.alloc).free_pages =
          kept_field (λ v. v.free_pages) (λ v p n. refl) in
        let np : (k.alloc).npages ≡ (m.alloc).npages = kept_field (λ v. v.npages) (λ v p n. refl) in
        let nz : (k.alloc).nzpages ≡ (m.alloc).nzpages =
          kept_field (λ v. v.nzpages) (λ v p n. refl) in
        let fn : (k.alloc).free_npages ≡ (m.alloc).free_npages =
          kept_field (λ v. v.free_npages) (λ v p n. refl) in
        let unused = length-unused dead_page (is_unused m) ps (λ a e. ground arith) in
        let few = length-keep (is_unused m) ps in
        let few' = length-keep (is_unused m) (keep (live dead_page) ps) in
        clean_pages-Cleaned dead_page ((m.alloc).npages + 1) null (k.alloc).pages 0 k ps fs
          Swept-reclaimable refl (null-Absent (page_next m) (m.alloc).pages ps w.used)
          (null-Absent (page_next m) (m.alloc).free_pages fs w.free)
          (kept-Chain (λ v. v.pages) ps pages w.used)
          (kept-Chain (λ v. v.free_pages) fs free w.free) w.apart (omega (arith, w.npages))
          (omega (arith, w.npages, np)) (omega (arith, w.npages, np, w.few))
          (omega (arith, nz, w.nzpages, unused, few'))
          (omega (arith, nz, np, w.nzpages, w.npages, few))
          (omega (arith, fn, w.free_npages, w.few))

    Cleaned-HasLists :
        (m' : Mem)
        → Cleaned dead_page null ps fs k m'
        → HasLists m' (keep (stays m) hs) (keep (live dead_page) ps) (releases dead_page ps fs)
    Cleaned-HasLists m' c =
        let np : (k.alloc).npages ≡ (m.alloc).npages = kept_field (λ v. v.npages) (λ v p n. refl) in
        let nz : (k.alloc).nzpages ≡ (m.alloc).nzpages =
          kept_field (λ v. v.nzpages) (λ v p n. refl) in
        let fn : (k.alloc).free_npages ≡ (m.alloc).free_npages =
          kept_field (λ v. v.free_npages) (λ v p n. refl) in
        let unused = length-unused dead_page (is_unused m) ps (λ a e. ground arith) in
        let same : is_unused m' ≡ is_unused m = fun_ext (λ a.
          ap (λ n. n == 0) (c.nchunks a ∙ ap (λ (g : SpacePage). g.nchunks) (kept_pages a))) in
        let lengths = length-releases dead_page ps fs in
        let h = s.holes in
        record {
          holes = record {
            chain = rw (c.same_alloc).holes (
                subst
                  (λ (g : Ptr → Chunk). Chain (λ p. (g p).next) (k.alloc).holes (keep (stays m) hs))
                  (sym c.chunks) h.chain);
            count = (c.same_alloc).nholes ∙ h.count;
            fits = h.fits;
          };
          used = c.chain;
          free = c.free;
          apart = releases-apart dead_page (page_next m) (m.alloc).pages ps fs w.used w.apart;
          on_pages = keep-on_pages dead_page hs ps w.on_pages;
          npages = omega (arith, c.npages, np, w.npages);
          nzpages = rw same (omega (arith, c.nzpages, nz, w.nzpages, unused));
          free_npages = omega (arith, c.count, fn, w.free_npages, lengths);
          few = omega (arith, lengths, w.few);
        }

    Cleaned-Emptied : (m' : Mem) → Cleaned dead_page null ps fs k m' → Emptied m hs ps fs m'
    Cleaned-Emptied m' c = record {
      lists = Cleaned-HasLists m' c;
      sizes = λ a. ap (λ (g : Ptr → Chunk). (g a).size) c.chunks ∙ (s.kept).sizes a;
      fields = record {
        start = λ a. (c.fields).start a ∙ ap (λ (g : SpacePage). g.start) (kept_pages a);
        end = λ a. (c.fields).end a ∙ ap (λ (g : SpacePage). g.end) (kept_pages a);
        offset = λ a. (c.fields).offset a ∙ ap (λ (g : SpacePage). g.offset) (kept_pages a);
        allocator =
            λ a. (c.fields).allocator a ∙ ap (λ (g : SpacePage). g.allocator) (kept_pages a);
      };
      nchunks = λ a. c.nchunks a ∙ ap (λ (g : SpacePage). g.nchunks) (kept_pages a);
      first = (c.same_alloc).first ∙ kept_field (λ v. v.first) (λ v p n. refl);
      total = (c.same_alloc).nchunks ∙ kept_field (λ v. v.nchunks) (λ v p n. refl);
      allocated = (c.same_alloc).allocated ∙ kept_field (λ v. v.allocated) (λ v p n. refl);
    }

  pub space_valloc_cleanup-Emptied :
      (m.alloc).npages ≢ 1 → Returns (λ _ m'. Emptied m hs ps fs m') (space_valloc_cleanup m)
  unfolding space_valloc_cleanup
  space_valloc_cleanup-Emptied several =
      let more : ((m.alloc).npages == 1) ≡ false = ground arith in
      rw more (
        Returns-and_then (λ _ k. Swept m hs k) _ _ _ (clean_holes-keep m hs w.holes)
          (λ n k s.
            Returns-and_then (λ _ m'. Cleaned dead_page null ps fs k m') _ _ _ (pages_loop k s)
              (λ n' m' c. Cleaned-Emptied k s m' c)))

  -- If there is more than one page in use and the lists and counters are consistent, the clean-up
  -- ends with neither a halt nor an endless loop. The unused pages but the first one are moved to
  -- the free pages, the holes on them leave the list of holes, all others stay in their order, and
  -- the lists and counters are consistent again.
  pub space_valloc_cleanup-HasLists :
      (m.alloc).npages ≢ 1
      → Returns
          (λ _ m'.
            HasLists m'
              (keep (stays m) hs)
              (keep (λ p. not (reclaimable m p)) ps)
              (releases (reclaimable m) ps fs))
          (space_valloc_cleanup m)
  space_valloc_cleanup-HasLists several =
      Returns-mono (λ _ m'. Emptied m hs ps fs m') _ (space_valloc_cleanup m)
        (space_valloc_cleanup-Emptied several) (λ _ m' e. e.lists)

-- With one page in use, nothing is done.
pub space_valloc_cleanup-one : (m : Mem) → (m.alloc).npages ≡ 1 → space_valloc_cleanup m ≡ ok tt m
unfolding space_valloc_cleanup
space_valloc_cleanup-one m one =
    let yes_one : ((m.alloc).npages == 1) ≡ true = ground arith in rw yes_one refl
