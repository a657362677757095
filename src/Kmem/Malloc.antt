-- ===== src/Kmem/Malloc.antt =====
-- kmem.c: `kmalloc`, first fit in the list of holes, then the current page, then a free page.
pub mod Unlink
pub mod Holes
pub mod Split
pub mod Limits
pub mod Reuse
pub mod Counted
pub mod Chosen
pub mod Picked
pub mod Parted
pub mod Opened
pub mod Carved
pub mod Sound
pub mod Taken
pub mod Paged
pub mod Whole
use osa_kernel_arm_boot_step.Prelude.{
  ℕ, zero, suc, ◌+◌, ◌-◌, ◌%◌, ◌^◌, not, ◌&&◌, Option, none, some, ltb, leb, ◌==◌, if◌then◌else◌,
}
use osa_kernel_arm_boot_step.Kmem.State.{
  Ptr, null, hal_page_of, max_hole_size, min_hole_size, align32, sizeof_chunk, chunk_data,
  SpacePage, space_page_of, Mem, Run, ok, halted, size_too_large, out_of_memory, assertion,
  out_of_fuel, Cmd, ◌>>=◌, inc, dec, set_chunk, set_next, set_size, set_page, count_hole_out,
}
use osa_kernel_arm_boot_step.Kmem.Cleanup.{link_hole, space_valloc_cleanup}

-- `hole->size - length`, on 32 bits
abbrev pub remaining_of : (size : ℕ) → Ptr → Mem → ℕ
remaining_of size hole m = ((m.chunk hole).size + 2 ^ 32 - (size + sizeof_chunk)) % 2 ^ 32

-- The hole gives its upper end to a new chunk and stays in the list.
pub split_hole : (size : ℕ) → Ptr → Mem → Ptr × Mem
split_hole size hole m =
    let remaining : ℕ = remaining_of size hole m in
    let chunk : Ptr = hole + remaining in
    (
      chunk,
      set_chunk chunk (record { size = size % 2 ^ 16; next = null }) (set_size hole remaining m),
    )

-- The whole hole leaves the list and keeps its size.
pub take_hole : (prev hole : Ptr) → Mem → Ptr × Mem
take_hole prev hole m =
    let m1 = link_hole prev (m.chunk hole).next m in (hole, count_hole_out (set_next hole null m1))

pub use_hole : (size : ℕ) → (prev hole : Ptr) → Mem → Ptr × Mem
unfolding split_hole take_hole
use_hole size prev hole m =
    if ltb min_hole_size (remaining_of size hole m)
    then split_hole size hole m
    else take_hole prev hole m

-- `while (hole)`: the predecessor and the first hole that is large enough
pub find_hole : ℕ → (size : ℕ) → (prev hole : Ptr) → Cmd (Option Ptr)
unfolding use_hole
find_hole zero size prev hole m = out_of_fuel
find_hole (suc fuel) size prev hole m =
    let next_round = find_hole fuel size hole (m.chunk hole).next m in
    let (chunk, m1) = use_hole size prev hole m in
    if hole == null
    then ok none m
    else if leb (size + sizeof_chunk) (m.chunk hole).size
    then ok (some chunk) m1
    else next_round

-- `page` leaves the list of free pages, is reset, and becomes the first of the pages.
pub take_free_page : Cmd Ptr
take_free_page m =
    let page : Ptr = (m.alloc).free_pages in
    let header = m.page page in
    let reset : SpacePage = record header {
      nchunks = 0;
      offset = header.start;
      free = header.start;
      next = (m.alloc).pages;
    } in
    let m1 = set_page page reset m in
    let taken = record m1 {
      alloc = record (m1.alloc) {
        free_pages = header.next;
        free_npages = dec 16 (m1.alloc).free_npages;
        pages = page;
        npages = inc 32 (m1.alloc).npages;
        nzpages = inc 32 (m1.alloc).nzpages;
      };
    } in
    if page == null then halted out_of_memory else ok page taken

-- `if (alloc->free.pages == NULL && alloc->nzpages != 0) space_valloc_cleanup();`
pub cleanup_if_needed : Cmd (Unit {0})
unfolding space_valloc_cleanup
cleanup_if_needed m =
    if ((m.alloc).free_pages == null) && not ((m.alloc).nzpages == 0)
    then space_valloc_cleanup m
    else ok tt m

-- The next chunk of `page` at its offset.
pub carve : (size : ℕ) → (page : Ptr) → Cmd Ptr
carve size page m =
    let header = m.page page in
    let chunk : Ptr = hal_page_of page + header.offset in
    let moved = record header { offset = (header.offset + (size + sizeof_chunk)) % 2 ^ 16 } in
    ok chunk (set_page page moved (set_size chunk size m))

-- The page that has room for the chunk: the current one or a free one.
pub page_with_room : (size : ℕ) → Cmd Ptr
unfolding cleanup_if_needed take_free_page
page_with_room size m =
    let page : Ptr = (m.alloc).pages in
    let header = m.page page in
    let fresh : Run Ptr = (do _ ← cleanup_if_needed; take_free_page) m in
    if ltb header.end (header.offset + (size + sizeof_chunk)) then fresh else ok page m

-- What follows the label `done`: the counters, and the address of the chunk's data.
pub finish : (chunk page : Ptr) → Cmd Ptr
finish chunk page m =
    let header = m.page page in
    let first_chunk = header.nchunks == 0 in
    let nzpages = if first_chunk then dec 32 (m.alloc).nzpages else (m.alloc).nzpages in
    let counted = set_page page (record header { nchunks = inc 16 header.nchunks }) m in
    if first_chunk && ltb (m.alloc).npages nzpages
    then halted assertion
    else ok (chunk_data chunk) (record counted {
      alloc = record (m.alloc) {
        nzpages = nzpages;
        nchunks = inc 32 (m.alloc).nchunks;
        allocated = ((m.alloc).allocated + (m.chunk chunk).size) % 2 ^ 64;
      };
    })

pub from_page : (size : ℕ) → Cmd Ptr
unfolding page_with_room carve finish
from_page size = do page ← page_with_room size; chunk ← carve size page; finish chunk page

pub allocate : (size : ℕ) → Cmd Ptr
unfolding find_hole from_page
allocate size m =
    (do
      found ← find_hole ((m.alloc).nholes + 1) size null (m.alloc).holes
      elim found [ none ↦ from_page size | some chunk ↦ finish chunk (space_page_of chunk) ])
      m

pub kmalloc : ℕ → Cmd Ptr
unfolding allocate align32
kmalloc requested m =
    let size : ℕ = align32 requested in
    if ltb max_hole_size size then halted size_too_large else allocate size m
