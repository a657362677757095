-- ===== src/Kmem/Init.antt =====
-- kmem.c: `space_page_init` and `space_valloc_init`, the division of the heap into pages. The
-- messages printed at the end are left out: they change no state of the allocator.
pub mod Pages
pub mod Whole
pub mod Sound
use osa_kernel_arm_boot_step.Prelude.{ℕ, zero, suc, ◌+◌, ◌-◌, ◌/◌, ◌%◌, ◌^◌, leb, if◌then◌else◌}
use osa_kernel_arm_boot_step.Kmem.State.{
  Ptr, null, hal_page_size, sizeof_space_page, SpacePage, SpaceValloc, Mem, Linker, ok, out_of_fuel,
  Cmd, inc, set_page,
}

-- `space_page_init`, which returns the page header's address
pub space_page_init : Linker → Ptr → ℕ → Mem → Ptr × Mem
space_page_init l addr reserved m =
    let page_offset : ℕ = hal_page_size - sizeof_space_page in
    let page : Ptr = addr + page_offset in
    let header : SpacePage = record {
      start = reserved;
      end = page_offset;
      nchunks = 0;
      offset = reserved;
      free = reserved;
      next = null;
      allocator = l.alloc_addr;
    } in
    (page, set_page page header m)

-- One round of the loop of `space_valloc_init`: the page at `addr` goes to the list of free pages.
pub add_free_page : Linker → Ptr → Mem → Mem
unfolding space_page_init
add_free_page l addr m =
    let (page, m1) = space_page_init l addr 0 m in
    let m2 = set_page page (record (m1.page page) { next = (m1.alloc).free_pages }) m1 in
    record m2 {
      alloc = record (m2.alloc) { free_pages = page; free_npages = inc 16 (m2.alloc).free_npages };
    }

-- `while (next <= &_kheap_high)`, with `next = addr + HAL_PAGE_SIZE`
pub init_loop : ℕ → Linker → Ptr → Cmd (Unit {0})
init_loop zero l addr m = out_of_fuel
init_loop (suc fuel) l addr m =
    let rest = init_loop fuel l ((addr + hal_page_size) % 2 ^ 32) (add_free_page l addr m) in
    if leb ((addr + hal_page_size) % 2 ^ 32) l.kheap_high then rest else ok tt m

abbrev pub empty_valloc : Linker → SpaceValloc
empty_valloc l = record {
  low = l.kheap_low;
  high = l.kheap_high;
  first = null;
  pages = null;
  npages = 0;
  nzpages = 0;
  holes = null;
  nholes = 0;
  free_pages = null;
  free_npages = 0;
  nchunks = 0;
  allocated = 0;
}

-- The state before the loop. `nchunks` is the one field that `space_valloc_init` leaves as it is,
-- zero in a static.
pub first_page : Linker → Mem → Mem
unfolding space_page_init
first_page l m =
    let cleared = record (empty_valloc l) { nchunks = (m.alloc).nchunks } in
    let (page, m1) = space_page_init l l.kheap_low 0 (record m { alloc = cleared }) in
    record m1 { alloc = record (m1.alloc) { first = page; pages = page; npages = 1; nzpages = 1 } }

-- The loop has a round for each page of the heap.
pub space_valloc_init : Linker → Cmd (Unit {0})
unfolding init_loop first_page
space_valloc_init l m =
    init_loop ((l.kheap_high - l.kheap_low) / hal_page_size + 1) l
      ((l.kheap_low + hal_page_size) % 2 ^ 32) (first_page l m)
