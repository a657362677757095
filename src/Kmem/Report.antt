-- ===== src/Kmem/Report.antt =====
-- kmem.c: what `space_valloc_init`, `space_valloc_cleanup` and with it `kmalloc` print. `kprintf` sends
-- it to UART0; it changes no state of the allocator.
use osa_kernel_arm_boot_step.Prelude.{
  ℕ, ◌+◌, ◌-◌, ◌%◌, ◌^◌, not, ◌&&◌, none, some, [], ◌∷◌, ◌++◌, ◌==◌, ltb, if◌then◌else◌,
}
use osa_kernel_arm_boot_step.Kmem.State.{null, Mem, ok, align32, max_hole_size, sizeof_chunk}
use osa_kernel_arm_boot_step.Kmem.Cleanup.{clean_holes, clean_pages}
use osa_kernel_arm_boot_step.Kmem.Malloc.{find_hole}
use osa_kernel_arm_boot_step.Kprintf.Digits.{Bytes, codes}
use osa_kernel_arm_boot_step.Kprintf.Spec.{Args, word}
use osa_kernel_arm_boot_step.Kprintf.Print.{kprintf, printed, undefined, out_of_fuel}

-- The text of a call of `kprintf`; none of these calls is undefined.
pub said : Bytes → Args → Bytes
said fmt args = elim (kprintf fmt args) [
  | printed text stores ↦ text
  | undefined ↦ []
  | out_of_fuel ↦ []
]

-- The end of `space_valloc_init`
pub init_report : Mem → Bytes
unfolding said
init_report m =
    let a = m.alloc in
    said (codes "Initialized malloc/free, region is [0x%x 0x%x[ size=%d " ++ 10 ∷ codes " ")
      (word a.low ∷ word a.high ∷ word ((a.high + 2 ^ 32 - a.low) % 2 ^ 32) ∷ [])
    ++ said (codes "    -> %d allocated pages " ++ 10 ∷ []) (word a.npages ∷ [])
    ++ said (codes "    -> %d empty pages " ++ 10 ∷ []) (word a.free_npages ∷ [])

-- The end of `space_valloc_cleanup`, with VERBOSE_CLEANUP and CONFIG_SPACE_STATS. The `%d` for the
-- counter of 64 bits reads its low word.
pub freed_report : (npages nholes : ℕ) → Mem → Bytes
unfolding said
freed_report npages nholes m =
    let a = m.alloc in
    let text : Bytes =
      said (codes "# valloc: freed npages=%d from nholes=%d " ++ 10 ∷ [])
        (word npages ∷ word nholes ∷ [])
      ++ said (codes "    -> npages=%d allocated=%d " ++ 10 ∷ [])
          (word a.npages ∷ word a.allocated ∷ [])
      ++ said (codes "    -> %d empty pages " ++ 10 ∷ []) (word a.free_npages ∷ []) in
    if npages == 0 then [] else text

-- What `space_valloc_cleanup` prints; a failed assertion in its loops prints none of this.
pub cleanup_report : Mem → Bytes
unfolding freed_report
cleanup_report m =
    let loops : Bytes = elim (clean_holes ((m.alloc).nholes + 1) null (m.alloc).holes 0 m) [
      | ok nholes m1 ↦ elim (clean_pages ((m1.alloc).npages + 1) null (m1.alloc).pages 0 m1) [
        | ok npages m2 ↦ freed_report npages nholes m2
        | _ ↦ []
      ]
      | _ ↦ []
    ] in
    if (m.alloc).npages == 1 then [] else loops

-- What `kmalloc` prints: the report of the clean-up, where it comes to one.
unfoldable pub kmalloc_report : ℕ → Mem → Bytes
unfolding cleanup_report align32
kmalloc_report requested m =
    let size : ℕ = align32 requested in
    let header = m.page (m.alloc).pages in
    let cleans =
      ltb header.end (header.offset + (size + sizeof_chunk))
      && (((m.alloc).free_pages == null) && not ((m.alloc).nzpages == 0)) in
    let from_page : Bytes = if cleans then cleanup_report m else [] in
    let allocate : Bytes = elim (find_hole ((m.alloc).nholes + 1) size null (m.alloc).holes m) [
      | ok found m1 ↦ elim found [ none ↦ from_page | some chunk ↦ [] ]
      | _ ↦ []
    ] in
    if ltb max_hole_size size then [] else allocate
