-- ===== src/Kmem/Cleanup.antt =====
-- kmem.c: `space_valloc_cleanup`, which takes the pages that hold no chunk back, with their holes.
-- What it prints at the end is in Report.
pub mod Holes
pub mod Moved
pub mod Pages
pub mod Whole
pub mod Sound
use osa_kernel_arm_boot_step.Prelude.{ℕ, zero, suc, ◌+◌, Bool, not, ◌&&◌, ltb, ◌==◌, if◌then◌else◌}
use osa_kernel_arm_boot_step.Kmem.State.{
  Ptr, null, space_page_of, Mem, Run, ok, halted, assertion, out_of_fuel, Cmd, ◌>>=◌, inc, dec,
  set_next, set_holes, set_pages, set_page_next, count_hole_out,
}

-- `page->nchunks == 0 && page != alloc->first`
abbrev pub reclaimable : Mem → Ptr → Bool
reclaimable m page = ((m.page page).nchunks == 0) && not (page == (m.alloc).first)

-- `if (prev) prev->next = next; else alloc->holes = next;`
abbrev pub link_hole : (prev next : Ptr) → Mem → Mem
link_hole prev next m = if prev == null then set_holes next m else set_next prev next m

-- The loop over the holes; it returns the number of holes dropped.
pub clean_holes : ℕ → (prev hole : Ptr) → ℕ → Cmd ℕ
clean_holes zero prev hole n m = out_of_fuel
clean_holes (suc fuel) prev hole n m =
    let next : Ptr = (m.chunk hole).next in
    let dropped = clean_holes fuel prev next (inc 32 n) (count_hole_out (link_hole prev next m)) in
    let kept = clean_holes fuel hole next n m in
    if hole == null then ok n m else if reclaimable m (space_page_of hole) then dropped else kept

abbrev pub link_page : (prev next : Ptr) → Mem → Mem
link_page prev next m = if prev == null then set_pages next m else set_page_next prev next m

-- `page->next = alloc->free.pages; alloc->free.pages = page; alloc->free.npages++;`
pub release_page : Ptr → Mem → Mem
release_page page m =
    let m1 = set_page_next page (m.alloc).free_pages m in
    record m1 {
      alloc = record (m1.alloc) { free_pages = page; free_npages = inc 16 (m1.alloc).free_npages };
    }

-- One page taken out of the list of pages, up to the assertion on the counters.
pub unlink_page : (prev page : Ptr) → Mem → Mem
unlink_page prev page m =
    let m1 = link_page prev (m.page page).next m in
    record m1 {
      alloc = record (m1.alloc) {
        npages = dec 32 (m1.alloc).npages;
        nzpages = dec 32 (m1.alloc).nzpages;
      };
    }

-- The loop over the pages; it returns the number of pages released.
pub clean_pages : ℕ → (prev page : Ptr) → ℕ → Cmd ℕ
unfolding unlink_page release_page
clean_pages zero prev page n m = out_of_fuel
clean_pages (suc fuel) prev page n m =
    let next : Ptr = (m.page page).next in
    let m1 = unlink_page prev page m in
    let released = clean_pages fuel prev next (inc 32 n) (release_page page m1) in
    let kept = clean_pages fuel page next n m in
    if page == null
    then ok n m
    else if reclaimable m page
    then if ltb (m1.alloc).npages (m1.alloc).nzpages then halted assertion else released
    else kept

-- The counts of holes and pages are the rounds that the two loops are given, and one more.
unfoldable pub space_valloc_cleanup : Cmd (Unit {0})
unfolding clean_holes clean_pages
space_valloc_cleanup m =
    let loops : Run (Unit {0}) =
      (do
        nholes ← clean_holes ((m.alloc).nholes + 1) null (m.alloc).holes 0
        npages ← (λ s. clean_pages ((m.alloc).npages + 1) null (s.alloc).pages 0 s)
        ok tt)
        m in
    if (m.alloc).npages == 1 then ok tt m else loops
