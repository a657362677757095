-- ===== src/Kmem/Free/Whole.antt =====
-- kmem.c: `kfree` as a whole, on the lists of holes, of pages and of free pages.
use osa_kernel_arm_boot_step.Prelude.{
  suc, ◌+◌, ◌<◌, ◌≤◌, ◌^◌, ◌≡◌, ◌≢◌, refl, sym, List, [], ◌∷◌, Bool, true, false, arith, ◌==◌,
  length, keep, Absent, Bool-cases, inl, inr,
}
use mathlib.Core.Path.{fun_ext, subst}
use osa_kernel_arm_boot_step.Kmem.State.{
  Ptr, null, Mem, Linker, ok, Returns, dec, chunk_of, space_page_of,
}
use osa_kernel_arm_boot_step.Kmem.Chain.{Chain, page_next, hole_size}
use osa_kernel_arm_boot_step.Kmem.Cleanup.Holes.{length-keep}
use osa_kernel_arm_boot_step.Kmem.Cleanup.Whole.{HasLists, is_unused}
use osa_kernel_arm_boot_step.Kmem.Lists.{Chain-same, length-keep-change}
use osa_kernel_arm_boot_step.Kmem.Free.{freed, kfree}
use osa_kernel_arm_boot_step.Kmem.Free.Push.{freed-HasHoles}
use osa_kernel_arm_boot_step.Kmem.Free.Again.{kfree-freed}

-- One item at least is not kept.
length-keep-less :
    (f : Ptr → Bool) (p : Ptr) (xs : List Ptr)
    → ¬ Absent p xs
    → f p ≡ false
    → length (keep f xs) < length xs
length-keep-less f p [] here off = absurd (here tt)
length-keep-less f p (x ∷ xs) here off = elim (Bool-cases (p == x)) [
  | inl e ↦
      let px : p ≡ x = ground arith in
      let fx : f x ≡ false = rw px at off in
      let bound = length-keep f xs in rw fx (omega (arith, bound))
  | inr ne ↦
      let px : p ≢ x = ground arith in
      let rest = length-keep-less f p xs (λ out. here (px, out)) off in ground (arith, rest)
]

module _ (hole page : Ptr) (m : Mem) (some_chunk : 0 < (m.page page).nchunks)
    (few : (m.page page).nchunks < 2 ^ 16) where
  freed-links : (a : Ptr) → page_next (freed hole page m) a ≡ page_next m a
  unfolding freed
  freed-links a = ground arith

  freed-others : (a : Ptr) → page ≢ a → is_unused m a ≡ is_unused (freed hole page m) a
  unfolding freed
  freed-others a ne = ground arith

  freed-nzpages :
      (ps : List Ptr)
      → Chain (page_next m) (m.alloc).pages ps
      → ¬ Absent page ps
      → (m.alloc).nzpages ≡ length (keep (is_unused m) ps)
      → length ps < 2 ^ 16
      → ((freed hole page m).alloc).nzpages ≡ length (keep (is_unused (freed hole page m)) ps)
  unfolding freed
  freed-nzpages ps c here nz short =
      let m' = freed hole page m in
      let bound = length-keep (is_unused m) ps in
      let used : is_unused m page ≡ false = ground arith in
      elim (Bool-cases (is_unused m' page)) [
        | inl last ↦
            let more : length (keep (is_unused m') ps) ≡ suc (length (keep (is_unused m) ps)) =
              length-keep-change (is_unused m') (is_unused m) page freed-others (page_next m)
                (m.alloc).pages ps c here last used in
            let zero : (dec 16 (m.page page).nchunks == 0) ≡ true = ground arith in
            rw zero (omega (arith, nz, bound, more, short))
        | inr left ↦
            let same : is_unused m' ≡ is_unused m = fun_ext (λ a. ground arith) in
            let some_left : (dec 16 (m.page page).nchunks == 0) ≡ false = ground arith in
            rw (some_left, same) nz
      ]

  freed-HasLists :
      (hs ps fs : List Ptr)
      → HasLists m hs ps fs
      → hole ≢ null
      → Absent hole hs
      → length hs + 1 < 2 ^ 32
      → space_page_of hole ≡ page
      → ¬ Absent page ps
      → HasLists (freed hole page m) (hole ∷ hs) ps fs
  unfolding freed
  freed-HasLists hs ps fs w ne out room same here =
      let link = freed-links in
      record {
        holes = freed-HasHoles hole page m hs w.holes ne out room;
        used =
            Chain-same (page_next m) (page_next (freed hole page m)) (m.alloc).pages (m.alloc).pages
              ps link refl w.used;
        free =
            Chain-same (page_next m) (page_next (freed hole page m)) (m.alloc).free_pages
              (m.alloc).free_pages fs link refl w.free;
        apart = w.apart;
        on_pages = (subst (λ a. ¬ Absent a ps) (sym same) here, w.on_pages);
        npages = w.npages;
        nzpages = freed-nzpages ps w.used here w.nzpages (omega (arith, w.few));
        free_npages = w.free_npages;
        few = w.few;
      }

pub kfree-runs :
    (l : Linker) (addr : Ptr) (m : Mem) (hs ps fs : List Ptr)
    → HasLists m hs ps fs
    → chunk_of addr ≢ null
    → Absent (chunk_of addr) hs
    → length hs + 1 < 2 ^ 32
    → space_page_of (chunk_of addr) ≡ space_page_of addr
    → ¬ Absent (space_page_of addr) ps
    → (m.page (space_page_of addr)).allocator ≡ l.alloc_addr
    → hole_size m (chunk_of addr) ≤ (m.alloc).allocated
    → 0 < (m.page (space_page_of addr)).nchunks
    → (m.page (space_page_of addr)).nchunks < 2 ^ 16
    → (kfree l addr m ≡ ok tt (freed (chunk_of addr) (space_page_of addr) m))
      × HasLists (freed (chunk_of addr) (space_page_of addr) m) (chunk_of addr ∷ hs) ps fs
kfree-runs l addr m hs ps fs w ne out room same here owner small some_chunk few =
    let page = space_page_of addr in
    let hole = chunk_of addr in
    let used : is_unused m page ≡ false = ground arith in
    let less = length-keep-less (is_unused m) page ps here used in
    let zero : (m.alloc).nzpages < (m.alloc).npages = omega (arith, w.nzpages, w.npages, less) in
    let pages : (m.alloc).npages < 2 ^ 32 = omega (arith, w.npages, w.few) in
    (
      kfree-freed l addr m owner small zero pages,
      freed-HasLists hole page m some_chunk few hs ps fs w ne out room same here,
    )

-- If the lists and counters are consistent, a chunk with its header and data on one page in use,
-- which counts it, and that is none of the holes and no larger than what is counted as allocated, is
-- freed without a halt: it becomes the first hole, and the lists and counters stay consistent.
pub kfree-HasLists :
    (l : Linker) (addr : Ptr) (m : Mem) (hs ps fs : List Ptr)
    → HasLists m hs ps fs
    → chunk_of addr ≢ null
    → Absent (chunk_of addr) hs
    → length hs + 1 < 2 ^ 32
    → space_page_of (chunk_of addr) ≡ space_page_of addr
    → ¬ Absent (space_page_of addr) ps
    → (m.page (space_page_of addr)).allocator ≡ l.alloc_addr
    → hole_size m (chunk_of addr) ≤ (m.alloc).allocated
    → 0 < (m.page (space_page_of addr)).nchunks
    → (m.page (space_page_of addr)).nchunks < 2 ^ 16
    → Returns (λ _ m'. HasLists m' (chunk_of addr ∷ hs) ps fs) (kfree l addr m)
kfree-HasLists l addr m hs ps fs w ne out room same here owner small some_chunk few =
    let f = kfree-runs l addr m hs ps fs w ne out room same here owner small some_chunk few in
    rw f.0 (f.1)
