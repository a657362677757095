-- ===== src/Kmem/Free.antt =====
-- kmem.c: `kfree`, which puts the chunk in front of the list of holes.
pub mod Push
pub mod Again
pub mod Whole
pub mod Sound
use osa_kernel_arm_boot_step.Prelude.{◌+◌, ◌-◌, ◌%◌, ◌^◌, not, ◌&&◌, ltb, ◌==◌, if◌then◌else◌}
use osa_kernel_arm_boot_step.Kmem.State.{
  Ptr, chunk_of, space_page_of, Mem, Linker, ok, halted, wild, assertion, Cmd, inc, dec, set_next,
  set_page,
}

-- The state after the updates of `kfree`, which come before the last assertion.
pub freed : (hole page : Ptr) → Mem → Mem
freed hole page m =
    let header = m.page page in
    let last = dec 16 header.nchunks == 0 in
    let m1 =
      set_page page (record header { nchunks = dec 16 header.nchunks })
        (set_next hole (m.alloc).holes m) in
    record m1 {
      alloc = record (m.alloc) {
        holes = hole;
        nholes = inc 32 (m.alloc).nholes;
        nchunks = dec 32 (m.alloc).nchunks;
        nzpages = if last then inc 32 (m.alloc).nzpages else (m.alloc).nzpages;
        allocated = ((m.alloc).allocated + 2 ^ 64 - (m.chunk hole).size) % 2 ^ 64;
      };
    }

-- `page->allocator` must be `&_alloc`, the one allocator there is.
pub kfree : Linker → Ptr → Cmd (Unit {0})
unfolding freed
kfree l addr m =
    let hole : Ptr = chunk_of addr in
    let page : Ptr = space_page_of addr in
    let m' = freed hole page m in
    if not ((m.page page).allocator == l.alloc_addr)
    then wild
    else if ltb (m.alloc).allocated (m.chunk hole).size
    then halted assertion
    else if ((m'.page page).nchunks == 0) && ltb (m'.alloc).npages (m'.alloc).nzpages
    then halted assertion
    else ok tt m'
