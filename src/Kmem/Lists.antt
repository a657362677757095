-- ===== src/Kmem/Lists.antt =====
-- kmem.c: what keeps the lists of holes, of pages and of free pages consistent.
use osa_kernel_arm_boot_step.Prelude.{
  suc, ◌≡◌, ◌≢◌, refl, ap, ◌∙◌, List, [], ◌∷◌, Bool, true, false, arith, ◌==◌, length, keep, Absent,
  All, Bool-cases, inl, inr,
}
use mathlib.Core.Path.{fun_ext}
use osa_kernel_arm_boot_step.Kmem.State.{Ptr, SpacePage, Mem, space_page_of}
use osa_kernel_arm_boot_step.Kmem.Chain.{Chain, hole_next, page_next, HasHoles}
use osa_kernel_arm_boot_step.Kmem.Cleanup.Whole.{HasLists, is_unused}

-- The links and the counts of pages stay.
pub record SameLinks (m m' : Mem) : Type 0 where
  pub hole_links : (a : Ptr) → hole_next m' a ≡ hole_next m a
  pub page_links : (a : Ptr) → page_next m' a ≡ page_next m a
  pub holes : (m'.alloc).holes ≡ (m.alloc).holes
  pub nholes : (m'.alloc).nholes ≡ (m.alloc).nholes
  pub pages : (m'.alloc).pages ≡ (m.alloc).pages
  pub npages : (m'.alloc).npages ≡ (m.alloc).npages
  pub free_pages : (m'.alloc).free_pages ≡ (m.alloc).free_pages
  pub free_npages : (m'.alloc).free_npages ≡ (m.alloc).free_npages

pub Chain-same :
    (f g : Ptr → Ptr) (p q : Ptr) (xs : List Ptr)
    → ((a : Ptr) → g a ≡ f a)
    → q ≡ p
    → Chain f p xs
    → Chain g q xs
Chain-same f g p q xs same e c = let fg : g ≡ f = fun_ext same in rw (fg, e) c

-- The lists stay consistent if the links stay and the unused pages are counted again.
pub HasLists-frame :
    (m m' : Mem) (hs ps fs : List Ptr)
    → HasLists m hs ps fs
    → SameLinks m m'
    → (m'.alloc).nzpages ≡ length (keep (is_unused m') ps)
    → HasLists m' hs ps fs
HasLists-frame m m' hs ps fs w s nz =
    let h = w.holes in
    record {
      holes = record {
        chain =
            Chain-same (hole_next m) (hole_next m') (m.alloc).holes (m'.alloc).holes hs s.hole_links
              s.holes h.chain;
        count = s.nholes ∙ h.count;
        fits = h.fits;
      };
      used =
          Chain-same (page_next m) (page_next m') (m.alloc).pages (m'.alloc).pages ps s.page_links
            s.pages w.used;
      free =
          Chain-same (page_next m) (page_next m') (m.alloc).free_pages (m'.alloc).free_pages fs
            s.page_links s.free_pages w.free;
      apart = w.apart;
      on_pages = w.on_pages;
      npages = s.npages ∙ w.npages;
      nzpages = nz;
      free_npages = s.free_npages ∙ w.free_npages;
      few = w.few;
    }

-- What is about pages stays.
pub record SamePages (m m' : Mem) : Type 0 where
  pub page : m'.page ≡ m.page
  pub pages : (m'.alloc).pages ≡ (m.alloc).pages
  pub npages : (m'.alloc).npages ≡ (m.alloc).npages
  pub nzpages : (m'.alloc).nzpages ≡ (m.alloc).nzpages
  pub free_pages : (m'.alloc).free_pages ≡ (m.alloc).free_pages
  pub free_npages : (m'.alloc).free_npages ≡ (m.alloc).free_npages

-- The lists stay consistent with another list of holes.
pub HasLists-holes :
    (m m' : Mem) (hs hs' ps fs : List Ptr)
    → HasLists m hs ps fs
    → HasHoles m' hs'
    → All (λ h. ¬ Absent (space_page_of h) ps) hs'
    → SamePages m m'
    → HasLists m' hs' ps fs
HasLists-holes m m' hs hs' ps fs w holes on_pages s =
    let link : (a : Ptr) → page_next m' a ≡ page_next m a =
      λ a. ap (λ (g : Ptr → SpacePage). (g a).next) s.page in
    let unused : is_unused m' ≡ is_unused m =
      fun_ext (λ a. ap (λ (g : Ptr → SpacePage). (g a).nchunks == 0) s.page) in
    record {
      holes = holes;
      used = Chain-same (page_next m) (page_next m') _ _ ps link s.pages w.used;
      free = Chain-same (page_next m) (page_next m') _ _ fs link s.free_pages w.free;
      apart = w.apart;
      on_pages = on_pages;
      npages = s.npages ∙ w.npages;
      nzpages = s.nzpages ∙ rw unused w.nzpages;
      free_npages = s.free_npages ∙ w.free_npages;
      few = w.few;
    }

-- Two tests that differ at one address at most.
module _ (f g : Ptr → Bool) (p : Ptr) (same : (a : Ptr) → p ≢ a → g a ≡ f a) where
  pub length-keep-absent : (xs : List Ptr) → Absent p xs → length (keep g xs) ≡ length (keep f xs)
  length-keep-absent [] out = refl
  length-keep-absent (x ∷ xs) out = ground (arith, same x out.0, length-keep-absent xs out.1)

  pub length-keep-change :
      (next : Ptr → Ptr) (q : Ptr) (xs : List Ptr)
      → Chain next q xs
      → ¬ Absent p xs
      → f p ≡ true
      → g p ≡ false
      → length (keep f xs) ≡ suc (length (keep g xs))
  length-keep-change next q [] c here on off = absurd (here tt)
  length-keep-change next q (x ∷ xs) c here on off = elim (Bool-cases (p == x)) [
    | inl e ↦
        let px : p ≡ x = ground arith in
        let out : Absent p xs = rw px (c.2) in
        let rest = length-keep-absent xs out in
        let fx : f x ≡ true = rw px at on in
        let gx : g x ≡ false = rw px at off in rw (fx, gx) (omega (arith, rest))
    | inr ne ↦
        let px : p ≢ x = ground arith in
        let rest = length-keep-change next (next x) xs c.3 (λ out. here (px, out)) on off in
        ground (arith, same x px, rest)
  ]

-- Some lists of holes, pages and free pages that are consistent.
pub record Consistent (m : Mem) : Type 0 where
  pub hs : List Ptr
  pub ps : List Ptr
  pub fs : List Ptr
  pub lists : HasLists m hs ps fs
