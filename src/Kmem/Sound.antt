-- ===== src/Kmem/Sound.antt =====
-- kmem.c: the invariant of the allocator with the chunks in use, which the code knows by its counters
-- only. `ls` are the headers of the chunks in use, `hs` the holes, `ps` the pages in use and `fs` the
-- free pages.

use osa_kernel_arm_boot_step.Prelude.{
  ℕ, ◌+◌, ◌-◌, ◌/◌, ◌≤◌, ◌<◌, ◌^◌, ◌≡◌, ◌⊎◌, List, [], ◌∷◌, ◌==◌, length, keep, Absent,
}
use osa_kernel_arm_boot_step.Kmem.State.{
  Ptr, Mem, Linker, hal_page_of, hal_page_size, sizeof_chunk, sizeof_space_page, space_page_of,
}
use osa_kernel_arm_boot_step.Kmem.Chain.{hole_size}
use osa_kernel_arm_boot_step.Kmem.Members.{In, Distinct}
use osa_kernel_arm_boot_step.Kmem.Cleanup.Whole.{HasLists}

-- Where the header of a page begins in the page.
abbrev pub page_end : ℕ
page_end = hal_page_size - sizeof_space_page

-- What the linker's symbols must be: a heap of at least one page and less than 2 ^ 16, not at
-- address 0, on a page boundary and three pages below the end of the address space.
pub record IsRegion (l : Linker) : Type 0 where
  pub aligned : space_page_of l.kheap_low ≡ l.kheap_low + page_end
  pub not_null : 0 < l.kheap_low
  pub some_page : l.kheap_low + hal_page_size ≤ l.kheap_high
  pub top : l.kheap_high + 0x3000 ≤ 2 ^ 32
  pub pages : l.kheap_high - l.kheap_low < 2 ^ 28

-- A page header, at the end of a page of the heap, with the offset of the next chunk in front of it.
pub record IsPage (l : Linker) (m : Mem) (p : Ptr) : Type 0 where
  pub header : space_page_of p ≡ p
  pub above : l.kheap_low + page_end ≤ p
  pub below : p + sizeof_space_page ≤ l.kheap_high
  pub start : (m.page p).start ≡ 0
  pub end : (m.page p).end ≡ page_end
  pub offset : (m.page p).offset ≤ page_end
  pub owner : (m.page p).allocator ≡ l.alloc_addr

-- A chunk or a hole lies on a page in use, in front of the offset of its next chunk.
pub record IsPlaced (m : Mem) (ps : List Ptr) (c : Ptr) : Type 0 where
  pub page : In (space_page_of c) ps
  pub within : c + hole_size m c + sizeof_chunk ≤ hal_page_of c + (m.page (space_page_of c)).offset

abbrev pub IsChunk : (ls hs : List Ptr) → Ptr → Type 0
IsChunk ls hs c = In c ls ⊎ In c hs

-- Pages are pages of the heap, chunks and holes lie on pages in use, and counted from its header the
-- size of none reaches behind the next header.
pub record IsLaid (l : Linker) (m : Mem) (ls hs ps fs : List Ptr) : Type 0 where
  pub pages : (p : Ptr) → In p ps ⊎ In p fs → IsPage l m p
  pub placed : (c : Ptr) → IsChunk ls hs c → IsPlaced m ps c
  pub apart : (c d : Ptr) → IsChunk ls hs c → IsChunk ls hs d → c < d → c + hole_size m c ≤ d

-- How many of the chunks lie on the page.
abbrev pub count_on : Ptr → List Ptr → ℕ
count_on p ls = length (keep (λ c. space_page_of c == p) ls)

abbrev pub bytes : (Ptr → ℕ) → List Ptr → ℕ
bytes size [] = 0
bytes size (c ∷ ls) = size c + bytes size ls

-- The counters are those of the chunks in use.
pub record IsCounted (m : Mem) (ls ps : List Ptr) : Type 0 where
  pub nchunks : (p : Ptr) → In p ps → (m.page p).nchunks ≡ count_on p ls
  pub total : (m.alloc).nchunks ≡ length ls
  pub allocated : (m.alloc).allocated ≡ bytes (hole_size m) ls

-- The number of pages of the heap.
abbrev pub pages_of : Linker → ℕ
pages_of l = (l.kheap_high - l.kheap_low) / hal_page_size

-- The lists are consistent, chunks are laid out and counted, no chunk in use is a hole, the first
-- page is in use, and every page is in use or free.
pub record IsSound (l : Linker) (m : Mem) (ls hs ps fs : List Ptr) : Type 0 where
  pub lists : HasLists m hs ps fs
  pub laid : IsLaid l m ls hs ps fs
  pub counted : IsCounted m ls ps
  pub distinct : Distinct ls
  pub fresh : (c : Ptr) → In c ls → Absent c hs
  pub first : In (m.alloc).first ps
  pub whole : length ps + length fs ≡ pages_of l
