-- ===== src/Kmem/Cleanup/Pages.antt =====
-- kmem.c: the second loop of `space_valloc_cleanup`, which moves pages to the list of free pages.
use osa_kernel_arm_boot_step.Prelude.{
  ℕ, zero, suc, ◌+◌, ◌≤◌, ◌<◌, ◌^◌, ◌≡◌, ◌≢◌, refl, sym, ◌∙◌, List, [], ◌∷◌, Bool, true, false,
  arith, ◌==◌, ltb, Bool-cases, inl, inr, length, keep, Absent, All,
}
use osa_kernel_arm_boot_step.Kmem.State.{Ptr, null, Mem, ok, Returns, Returns-mono, inc}
use osa_kernel_arm_boot_step.Kmem.Chain.{Chain, page_next, All-of_Absent₂, Chain-frame}
use osa_kernel_arm_boot_step.Kmem.Cleanup.Holes.{length-keep}
use osa_kernel_arm_boot_step.Kmem.Cleanup.{clean_pages, reclaimable, unlink_page}
use osa_kernel_arm_boot_step.Kmem.Cleanup.Moved.{
  releases, link_at, live, Cleaned, moved, moved-link, moved-next, moved-x, moved-reclaimable,
  moved-free, moved-counts, Cleaned-drop, Cleaned-keep,
}

-- One round of the loop.
module _ (fuel : ℕ) (prev x : Ptr) (n : ℕ) (m : Mem) (nx : (x == null) ≡ false) where
  clean_pages-drop :
      reclaimable m x ≡ true
      → ltb ((unlink_page prev x m).alloc).npages ((unlink_page prev x m).alloc).nzpages ≡ false
      → clean_pages (suc fuel) prev x n m
        ≡ clean_pages fuel prev (page_next m x) (inc 32 n) (moved prev x m)
  unfolding clean_pages
  clean_pages-drop gone fine = rw (nx, gone, fine) refl

  clean_pages-keep :
      reclaimable m x ≡ false
      → clean_pages (suc fuel) prev x n m ≡ clean_pages fuel x (page_next m x) n m
  unfolding clean_pages
  clean_pages-keep here = rw (nx, here) refl

clean_pages-end :
    (fuel : ℕ) (prev : Ptr) (n : ℕ) (m : Mem) → clean_pages (suc fuel) prev null n m ≡ ok n m
unfolding clean_pages
clean_pages-end fuel prev n m = refl

-- A page that is none of `xs` may join the pages that these are apart from.
pub Absent-cons :
    (x : Ptr) (xs fs : List Ptr)
    → Absent x xs
    → All (λ a. Absent a fs) xs
    → All (λ a. Absent a (x ∷ fs)) xs
Absent-cons x [] fs out all = tt
Absent-cons x (a ∷ xs) fs out all = ((λ e. out.0 (sym e), all.0), Absent-cons x xs fs out.1 all.1)

-- The loop, from any place in the list of pages.
pub clean_pages-Cleaned :
    (dead : Ptr → Bool) (fuel : ℕ) (prev page : Ptr) (n : ℕ) (m : Mem) (xs fs : List Ptr)
    → ((a : Ptr) → reclaimable m a ≡ dead a)
    → link_at m prev ≡ page
    → Absent prev xs
    → Absent prev fs
    → Chain (page_next m) page xs
    → Chain (page_next m) (m.alloc).free_pages fs
    → All (λ a. Absent a fs) xs
    → length xs < fuel
    → length xs ≤ (m.alloc).npages
    → (m.alloc).npages < 2 ^ 32
    → length xs ≤ length (keep (live dead) xs) + (m.alloc).nzpages
    → (m.alloc).nzpages ≤ (m.alloc).npages
    → (m.alloc).free_npages + length xs < 2 ^ 16
    → Returns (λ _ m'. Cleaned dead prev xs fs m m') (clean_pages fuel prev page n m)
unfolding releases
clean_pages-Cleaned dead zero prev page n m xs fs d e o of c cf apart f g b z zb r =
    absurd (omega arith)
clean_pages-Cleaned dead (suc fuel) prev page n m [] fs d e o of c cf apart f g b z zb r =
    rw (c, clean_pages-end fuel prev n m)
      (record {
        chain = e ∙ c;
        free = cf;
        head = λ ne. refl;
        same = λ a ne out. refl;
        chunks = refl;
        nchunks = λ a. refl;
        fields = record {
          start = λ a. refl;
          end = λ a. refl;
          offset = λ a. refl;
          allocator = λ a. refl;
        };
        npages = refl;
        nzpages = refl;
        same_alloc = record {
          first = refl;
          holes = refl;
          nholes = refl;
          nchunks = refl;
          allocated = refl;
        };
        count = refl;
      })
clean_pages-Cleaned dead (suc fuel) prev page n m (x ∷ xs) fs d e o of c cf apart f g b z zb r =
    let at : link_at m prev ≡ x = e ∙ c.0 in
    let nx : (x == null) ≡ false = ground arith in
    elim (Bool-cases (dead x)) [
      | inl gone ↦
          let few : length (keep (live dead) xs) ≤ length xs = length-keep (live dead) xs in
          let zero : suc (length xs) ≤ length (keep (live dead) xs) + (m.alloc).nzpages =
            rw gone at z in
          let counts =
            moved-counts dead prev x xs fs m at o c.1 c.2 (omega arith) b (omega arith) zb
              (omega arith) in
          let next : (a : Ptr) → prev ≢ a → x ≢ a → page_next (moved prev x m) a ≡ page_next m a =
            moved-next dead prev x xs fs m at o c.1 c.2 in
          let rest : Chain (page_next (moved prev x m)) (page_next m x) xs =
            Chain-frame (page_next m) (page_next (moved prev x m)) (page_next m x) xs c.3
              (All-of_Absent₂ _ prev x xs o.1 c.2 next) in
          let freed : Chain (page_next (moved prev x m)) ((moved prev x m).alloc).free_pages
              (x ∷ fs) =
            (
              moved-free dead prev x xs fs m at o c.1 c.2,
              c.1,
              apart.0,
              rw (moved-x dead prev x xs fs m at o c.1 c.2) (
                  Chain-frame (page_next m) (page_next (moved prev x m)) (m.alloc).free_pages fs cf
                    (All-of_Absent₂ _ prev x fs of apart.0 next)),
            ) in
          rw (c.0, clean_pages-drop fuel prev x n m nx (d x ∙ gone) counts.3)
            (Returns-mono _ _ _
              (clean_pages-Cleaned dead fuel prev (page_next m x) (inc 32 n) (moved prev x m) xs
                (x ∷ fs) (λ a. moved-reclaimable dead prev x xs fs m at o c.1 c.2 a ∙ d a)
                (moved-link dead prev x xs fs m at o c.1 c.2) o.1 (o.0, of) rest freed
                (Absent-cons x xs fs c.2 apart.1) (omega arith) (omega (arith, counts.0))
                (omega (arith, counts.0)) (omega (arith, counts.1))
                (omega (arith, counts.0, counts.1)) (omega (arith, counts.2)))
              (λ k m' w.
                Cleaned-drop dead prev x xs fs m at o c.1 c.2 m' gone (omega arith) b (omega arith)
                  (omega arith) (omega arith) w))
      | inr here ↦
          let kept : suc (length xs) ≤ suc (length (keep (live dead) xs)) + (m.alloc).nzpages =
            rw here at z in
          rw (c.0, clean_pages-keep fuel prev x n m nx (d x ∙ here))
            (Returns-mono _ _ _
              (clean_pages-Cleaned dead fuel x (page_next m x) n m xs fs d (rw nx refl) c.2 apart.0
                c.3 cf apart.1 (omega arith) (omega arith) b (omega (arith, kept)) zb (omega arith))
              (λ k m' w. Cleaned-keep dead prev x xs fs m at o c.1 c.2 m' here w))
    ]
