-- ===== src/Kmem/Malloc/Counted.antt =====
-- kmem.c: the end of `kmalloc`, behind the label `done`.
use osa_kernel_arm_boot_step.Prelude.{
  ℕ, suc, ◌+◌, ◌%◌, ◌<◌, ◌^◌, ◌≡◌, refl, List, false, arith, ◌&&◌, ltb, if◌then◌else◌, length, keep,
  Absent, Bool-cases, inl, inr,
}
use mathlib.Core.Path.{fun_ext}
use osa_kernel_arm_boot_step.Kmem.State.{Ptr, Mem, ok, chunk_data, Returns, inc, dec, set_page}
use osa_kernel_arm_boot_step.Kmem.Chain.{page_next}
use osa_kernel_arm_boot_step.Kmem.Cleanup.Holes.{length-keep}
use osa_kernel_arm_boot_step.Kmem.Cleanup.Whole.{HasLists, is_unused}
use osa_kernel_arm_boot_step.Kmem.Lists.{SameLinks, HasLists-frame, length-keep-change}
use osa_kernel_arm_boot_step.Kmem.Malloc.{finish}

module _ (chunk page : Ptr) (m : Mem) where
  -- The page's count of chunks goes up, and the unused pages lose it if it had none.
  abbrev pub nzpages_after : ℕ
  nzpages_after = if is_unused m page then dec 32 (m.alloc).nzpages else (m.alloc).nzpages

  abbrev pub counted : Mem
  counted =
      let header = m.page page in
      record (set_page page (record header { nchunks = inc 16 header.nchunks }) m) {
        alloc = record (m.alloc) {
          nzpages = nzpages_after;
          nchunks = inc 32 (m.alloc).nchunks;
          allocated = ((m.alloc).allocated + (m.chunk chunk).size) % 2 ^ 64;
        };
      }

  finish-counted :
      (is_unused m page && ltb (m.alloc).npages nzpages_after) ≡ false
      → finish chunk page m ≡ ok (chunk_data chunk) counted
  unfolding finish
  finish-counted fine = rw fine refl

  counted-SameLinks : SameLinks m counted
  counted-SameLinks = record {
    hole_links = λ a. refl;
    page_links = λ a. ground arith;
    holes = refl;
    nholes = refl;
    pages = refl;
    npages = refl;
    free_pages = refl;
    free_npages = refl;
  }

  -- Where the lists and counters are consistent and the page is in use, the end of `kmalloc` is
  -- reached without a halt, and they stay consistent.
  pub finish-runs :
      (hs ps fs : List Ptr)
      → HasLists m hs ps fs
      → ¬ Absent page ps
      → (m.page page).nchunks + 1 < 2 ^ 16
      → (finish chunk page m ≡ ok (chunk_data chunk) counted) × HasLists counted hs ps fs
  finish-runs hs ps fs w here few =
      let bound = length-keep (is_unused m) ps in
      elim (Bool-cases (is_unused m page)) [
        | inl empty ↦
            let filled : is_unused counted page ≡ false = ground arith in
            let less : length (keep (is_unused m) ps) ≡ suc (length (keep (is_unused counted) ps)) =
              length-keep-change (is_unused m) (is_unused counted) page (λ a ne. ground arith)
                (page_next m) (m.alloc).pages ps w.used here empty filled in
            let after : nzpages_after ≡ length (keep (is_unused counted) ps) =
              rw empty (omega (arith, w.nzpages, w.few, less, bound)) in
            let fine : (is_unused m page && ltb (m.alloc).npages nzpages_after) ≡ false =
              ground (arith, after, w.npages, less, bound) in
            (finish-counted fine, HasLists-frame m counted hs ps fs w counted-SameLinks after)
        | inr filled ↦
            let same : is_unused counted ≡ is_unused m = fun_ext (λ a. ground arith) in
            let after : nzpages_after ≡ length (keep (is_unused counted) ps) =
              rw (filled, same) w.nzpages in
            let fine : (is_unused m page && ltb (m.alloc).npages nzpages_after) ≡ false =
              rw filled refl in
            (finish-counted fine, HasLists-frame m counted hs ps fs w counted-SameLinks after)
      ]

  pub finish-HasLists :
      (hs ps fs : List Ptr)
      → HasLists m hs ps fs
      → ¬ Absent page ps
      → (m.page page).nchunks + 1 < 2 ^ 16
      → Returns
          (λ p m'. (p ≡ chunk_data chunk) × (m'.chunk ≡ m.chunk) × HasLists m' hs ps fs)
          (finish chunk page m)
  finish-HasLists hs ps fs w here few =
      let r = finish-runs hs ps fs w here few in rw r.0 (refl, refl, r.1)
