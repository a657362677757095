-- ===== src/Kmem/Malloc/Taken.antt =====
-- kmem.c: a free page that `kmalloc` takes into use.
use osa_kernel_arm_boot_step.Prelude.{
  ◌+◌, ◌<◌, ◌^◌, ◌≡◌, ◌≢◌, refl, sym, List, [], ◌∷◌, true, false, arith, ◌==◌, Absent, All,
}
use osa_kernel_arm_boot_step.Kmem.State.{
  Ptr, null, Mem, inc, dec, set_page, ok, Safe, space_page_of,
}
use osa_kernel_arm_boot_step.Kmem.Chain.{page_next, Chain-frame, All-of_Absent}
use osa_kernel_arm_boot_step.Kmem.Cleanup.Holes.{length-keep}
use osa_kernel_arm_boot_step.Kmem.Cleanup.Whole.{HasLists, is_unused}
use osa_kernel_arm_boot_step.Kmem.Lists.{length-keep-absent, Consistent}
use osa_kernel_arm_boot_step.Kmem.Malloc.{take_free_page}

-- A page that is in use, and counts few chunks.
pub record Ready (page : Ptr) (m : Mem) : Type 0 where
  pub consistent : Consistent m
  pub here : ¬ Absent page consistent.ps
  pub few : (m.page page).nchunks + 1 < 2 ^ 16

pub Absent-all : (x : Ptr) (ps fs : List Ptr) → All (λ p. Absent p (x ∷ fs)) ps → Absent x ps
Absent-all x [] fs all = tt
Absent-all x (p ∷ ps) fs all = ((λ e. (all.0).0 (sym e)), Absent-all x ps fs all.1)

All-tail :
    (x : Ptr) (ps fs : List Ptr) → All (λ p. Absent p (x ∷ fs)) ps → All (λ p. Absent p fs) ps
All-tail x [] fs all = tt
All-tail x (p ∷ ps) fs all = ((all.0).1, All-tail x ps fs all.1)

All-more :
    (x : Ptr) (hs ps : List Ptr)
    → All (λ h. ¬ Absent (space_page_of h) ps) hs
    → All (λ h. ¬ Absent (space_page_of h) (x ∷ ps)) hs
All-more x [] ps all = tt
All-more x (h ∷ hs) ps all = ((λ out. all.0 out.1), All-more x hs ps all.1)

module _ (m : Mem) (hs ps : List Ptr) (x : Ptr) (fs : List Ptr)
    (w : HasLists m hs ps (x ∷ fs)) where
  -- The memory behind `take_free_page`.
  abbrev pub taken : Mem
  taken =
      let header = m.page x in
      let m1 =
        set_page x
          (record header {
            nchunks = 0;
            offset = header.start;
            free = header.start;
            next = (m.alloc).pages;
          })
          m in
      record m1 {
        alloc = record (m.alloc) {
          free_pages = header.next;
          free_npages = dec 16 (m.alloc).free_npages;
          pages = x;
          npages = inc 32 (m.alloc).npages;
          nzpages = inc 32 (m.alloc).nzpages;
        };
      }

  pub take_free_page-taken : take_free_page m ≡ ok x taken
  unfolding take_free_page
  take_free_page-taken =
      let c = w.free in let nx : (x == null) ≡ false = ground arith in rw (c.0, nx) refl

  taken-next : (a : Ptr) → x ≢ a → page_next taken a ≡ page_next m a
  taken-next a ne = ground arith

  taken-unused : (a : Ptr) → x ≢ a → is_unused taken a ≡ is_unused m a
  taken-unused a ne = ground arith

  pub taken-HasLists : HasLists taken hs (x ∷ ps) fs
  taken-HasLists =
      let c = w.free in
      let out = Absent-all x ps fs w.apart in
      let bound = length-keep (is_unused m) ps in
      let same = length-keep-absent (is_unused m) (is_unused taken) x taken-unused ps out in
      let empty : is_unused taken x ≡ true = ground arith in
      let link : page_next taken x ≡ (m.alloc).pages = ground arith in
      record {
        holes = record { chain = (w.holes).chain; count = (w.holes).count; fits = (w.holes).fits };
        used = (
          refl,
          c.1,
          out,
          rw link (
              Chain-frame (page_next m) (page_next taken) (m.alloc).pages ps w.used
                (All-of_Absent _ x ps out taken-next)),
        );
        free =
            Chain-frame (page_next m) (page_next taken) (page_next m x) fs c.3
              (All-of_Absent _ x fs c.2 taken-next);
        apart = (c.2, All-tail x ps fs w.apart);
        on_pages = All-more x hs ps w.on_pages;
        npages = omega (arith, w.npages, w.few);
        nzpages = rw empty (omega (arith, w.nzpages, w.few, bound, same));
        free_npages = omega (arith, w.free_npages, w.few);
        few = omega (arith, w.few);
      }

  taken-Ready : Ready x taken
  taken-Ready = record {
    consistent = record { hs = hs; ps = x ∷ ps; fs = fs; lists = taken-HasLists };
    here = λ out. out.0 refl;
    few = ground arith;
  }

-- The first free page comes into use, if there is one.
take_free_page-lists :
    (m : Mem) (hs ps fs : List Ptr) → HasLists m hs ps fs → Safe Ready (take_free_page m)
unfolding take_free_page
take_free_page-lists m hs ps [] w = rw (w.free) tt
take_free_page-lists m hs ps (x ∷ fs) w =
    rw (take_free_page-taken m hs ps x fs w) (taken-Ready m hs ps x fs w)

pub take_free_page-Ready : (m : Mem) → Consistent m → Safe Ready (take_free_page m)
take_free_page-Ready m c = take_free_page-lists m c.hs c.ps c.fs c.lists
