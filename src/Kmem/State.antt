-- ===== src/Kmem/State.antt =====
-- kmem.c and kmem.h: the allocator's data. The memory is typed: a map from addresses to chunk
-- headers, one to page headers, and the static `_alloc`. The configuration is the Makefile's, with
-- CONFIG_SPACE_STATS. Fixed-width counters wrap around.
use osa_kernel_arm_boot_step.Prelude.{ℕ, ◌+◌, ◌-◌, ◌%◌, ◌^◌, ◌≡◌, refl, update}

abbrev pub Ptr : Type 0
Ptr = ℕ

abbrev pub null : Ptr
null = 0

abbrev pub hal_page_size : ℕ
hal_page_size = 4096

-- `addr & ~(HAL_PAGE_SIZE - 1)`
abbrev pub hal_page_of : Ptr → Ptr
hal_page_of addr = addr - addr % hal_page_size

abbrev pub max_hole_size : ℕ
max_hole_size = 3072

abbrev pub min_hole_size : ℕ
min_hole_size = 32

-- `(v + 3) & ~3` on a 32-bit `uintptr_t`
unfoldable pub align32 : ℕ → ℕ
align32 v = let up : ℕ = (v + 3) % 2 ^ 32 in up - up % 4

-- `struct _chunk`: 2 + 4 bytes packed, aligned on 4
pub record Chunk : Type 0 where
  pub size : ℕ
  pub next : Ptr

abbrev pub sizeof_chunk : ℕ
sizeof_chunk = 8

abbrev pub chunk_data : Ptr → Ptr
chunk_data chunk = chunk + sizeof_chunk

abbrev pub chunk_of : Ptr → Ptr
chunk_of addr = (addr + 2 ^ 32 - sizeof_chunk) % 2 ^ 32

-- `struct space_page`: 10 + 4 + 4 bytes packed, aligned on 4
pub record SpacePage : Type 0 where
  pub start : ℕ
  pub end : ℕ
  pub nchunks : ℕ
  pub offset : ℕ
  pub free : ℕ
  pub next : Ptr
  pub allocator : Ptr

abbrev pub sizeof_space_page : ℕ
sizeof_space_page = 20

abbrev pub space_page_of : Ptr → Ptr
space_page_of addr = hal_page_of addr + (hal_page_size - sizeof_space_page)

-- `struct space_valloc`, its inner struct `free` as two fields
pub record SpaceValloc : Type 0 where
  pub low : Ptr
  pub high : Ptr
  pub first : Ptr
  pub pages : Ptr
  pub npages : ℕ
  pub nzpages : ℕ
  pub holes : Ptr
  pub nholes : ℕ
  pub free_pages : Ptr
  pub free_npages : ℕ
  pub nchunks : ℕ
  pub allocated : ℕ

pub record Mem : Type 0 where
  pub chunk : Ptr → Chunk
  pub page : Ptr → SpacePage
  pub alloc : SpaceValloc

-- The linker's symbols: the bounds of the heap and the address of `_alloc`.
pub record Linker : Type 0 where
  pub kheap_low : Ptr
  pub kheap_high : Ptr
  pub alloc_addr : Ptr

-- Why `_arm_halt` was called: two panics, and the failed assertions.
pub data Reason : Type 0 where
  size_too_large : Reason
  out_of_memory : Reason
  assertion : Reason

-- `wild` is an update through a pointer that is not `_alloc`; `out_of_fuel` is a loop cut short.
pub data Run (A : Type 0) : Type 0 where
  ok : A → Mem → Run A
  halted : Reason → Run A
  wild : Run A
  out_of_fuel : Run A

abbrev pub Cmd : Type 0 → Type 0
Cmd A = Mem → Run A

abbrev pub and_then : {A B : Type 0} → Run A → (A → Cmd B) → Run B
and_then (ok a m) k = k a m
and_then (halted r) k = halted r
and_then wild k = wild
and_then out_of_fuel k = out_of_fuel

infixl 5 ◌>>=◌
abbrev pub ◌>>=◌ : {A B : Type 0} → Cmd A → (A → Cmd B) → Cmd B
m >>= k = λ s. and_then (m s) k

-- Counters: `++` and `--` on `w` bits.
abbrev pub inc : ℕ → ℕ → ℕ
inc w n = (n + 1) % 2 ^ w

abbrev pub dec : ℕ → ℕ → ℕ
dec w n = (n + 2 ^ w - 1) % 2 ^ w

-- Field writes.
abbrev pub set_chunk : Ptr → Chunk → Mem → Mem
set_chunk p c m = record m { chunk = update m.chunk p c }

abbrev pub set_next : Ptr → Ptr → Mem → Mem
set_next p q m = set_chunk p (record (m.chunk p) { next = q }) m

abbrev pub set_size : Ptr → ℕ → Mem → Mem
set_size p n m = set_chunk p (record (m.chunk p) { size = n % 2 ^ 16 }) m

abbrev pub set_page : Ptr → SpacePage → Mem → Mem
set_page p g m = record m { page = update m.page p g }

abbrev pub set_holes : Ptr → Mem → Mem
set_holes p m = record m { alloc = record (m.alloc) { holes = p } }

abbrev pub count_hole_out : Mem → Mem
count_hole_out m = record m { alloc = record (m.alloc) { nholes = dec 32 (m.alloc).nholes } }

abbrev pub set_pages : Ptr → Mem → Mem
set_pages p m = record m { alloc = record (m.alloc) { pages = p } }

abbrev pub set_page_next : Ptr → Ptr → Mem → Mem
set_page_next p q m = set_page p (record (m.page p) { next = q }) m

-- Total correctness of a run: it ends with no halt, and its result and memory are as stated.
abbrev pub Returns : {A : Type 0} → (A → Mem → Type 0) → Run A → Type 0
Returns P (ok a m) = P a m
Returns P (halted r) = ⊥
Returns P wild = ⊥
Returns P out_of_fuel = ⊥

pub Returns-mono :
    {A : Type 0} (P Q : A → Mem → Type 0) (r : Run A)
    → Returns P r
    → ((a : A) (m : Mem) → P a m → Q a m)
    → Returns Q r
Returns-mono P Q (ok a m) h weaken = weaken a m h
Returns-mono P Q (halted r) h weaken = absurd h
Returns-mono P Q wild h weaken = absurd h
Returns-mono P Q out_of_fuel h weaken = absurd h

pub Returns-and_then :
    {A B : Type 0} (P : A → Mem → Type 0) (Q : B → Mem → Type 0) (r : Run A) (k : A → Cmd B)
    → Returns P r
    → ((a : A) (m : Mem) → P a m → Returns Q (k a m))
    → Returns Q (and_then r k)
Returns-and_then P Q (ok a m) k h step = step a m h
Returns-and_then P Q (halted r) k h step = absurd h
Returns-and_then P Q wild k h step = absurd h
Returns-and_then P Q out_of_fuel k h step = absurd h

-- The run ends as stated, or with the panic that no memory is left, and then `Z` holds.
abbrev pub Ends : {A : Type 0} → Type 0 → (A → Mem → Type 0) → Run A → Type 0
Ends Z P (ok a m) = P a m
Ends Z P (halted out_of_memory) = Z
Ends Z P (halted size_too_large) = ⊥
Ends Z P (halted assertion) = ⊥
Ends Z P wild = ⊥
Ends Z P out_of_fuel = ⊥

pub Ends-and_then :
    {A B : Type 0} (Z : Type 0) (P : A → Mem → Type 0) (Q : B → Mem → Type 0) (r : Run A)
    (k : A → Cmd B)
    → Ends Z P r
    → ((a : A) (m : Mem) → P a m → Ends Z Q (k a m))
    → Ends Z Q (and_then r k)
Ends-and_then Z P Q (ok a m) k h step = step a m h
Ends-and_then Z P Q (halted out_of_memory) k h step = h
Ends-and_then Z P Q (halted size_too_large) k h step = absurd h
Ends-and_then Z P Q (halted assertion) k h step = absurd h
Ends-and_then Z P Q wild k h step = absurd h
Ends-and_then Z P Q out_of_fuel k h step = absurd h

pub Returns-Ends :
    {A : Type 0} (Z : Type 0) (P Q : A → Mem → Type 0) (r : Run A)
    → Returns P r
    → ((a : A) (m : Mem) → P a m → Q a m)
    → Ends Z Q r
Returns-Ends Z P Q (ok a m) h weaken = weaken a m h
Returns-Ends Z P Q (halted r) h weaken = absurd h
Returns-Ends Z P Q wild h weaken = absurd h
Returns-Ends Z P Q out_of_fuel h weaken = absurd h

pub Ends-mono :
    {A : Type 0} (Z Z' : Type 0) (P Q : A → Mem → Type 0) (r : Run A)
    → Ends Z P r
    → (Z → Z')
    → ((a : A) (m : Mem) → P a m → Q a m)
    → Ends Z' Q r
Ends-mono Z Z' P Q (ok a m) h panic weaken = weaken a m h
Ends-mono Z Z' P Q (halted out_of_memory) h panic weaken = panic h
Ends-mono Z Z' P Q (halted size_too_large) h panic weaken = absurd h
Ends-mono Z Z' P Q (halted assertion) h panic weaken = absurd h
Ends-mono Z Z' P Q wild h panic weaken = absurd h
Ends-mono Z Z' P Q out_of_fuel h panic weaken = absurd h

-- Without that panic the run returns.
pub Ends-Returns :
    {A : Type 0} (Z : Type 0) (P : A → Mem → Type 0) (r : Run A) → Ends Z P r → ¬ Z → Returns P r
Ends-Returns Z P (ok a m) h never = h
Ends-Returns Z P (halted out_of_memory) h never = never h
Ends-Returns Z P (halted size_too_large) h never = absurd h
Ends-Returns Z P (halted assertion) h never = absurd h
Ends-Returns Z P wild h never = absurd h
Ends-Returns Z P out_of_fuel h never = absurd h

-- What a run that returns has returned.
pub returned :
    {A : Type 0} (P : A → Mem → Type 0) (r : Run A)
    → Returns P r
    → (a : A) × (m : Mem) × P a m × (r ≡ ok a m)
returned P (ok a m) h = (a, m, h, refl)
returned P (halted r) h = absurd h
returned P wild h = absurd h
returned P out_of_fuel h = absurd h

-- The run ends as stated, or with the panic that no memory is left.
abbrev pub Safe : {A : Type 0} → (A → Mem → Type 0) → Run A → Type 0
Safe P r = Ends (Unit {0}) P r

pub Safe-and_then :
    {A B : Type 0} (P : A → Mem → Type 0) (Q : B → Mem → Type 0) (r : Run A) (k : A → Cmd B)
    → Safe P r
    → ((a : A) (m : Mem) → P a m → Safe Q (k a m))
    → Safe Q (and_then r k)
Safe-and_then P Q r k h step = Ends-and_then Unit P Q r k h step

pub Returns-Safe :
    {A : Type 0} (P Q : A → Mem → Type 0) (r : Run A)
    → Returns P r
    → ((a : A) (m : Mem) → P a m → Q a m)
    → Safe Q r
Returns-Safe P Q r h weaken = Returns-Ends Unit P Q r h weaken

pub Safe-mono :
    {A : Type 0} (P Q : A → Mem → Type 0) (r : Run A)
    → Safe P r
    → ((a : A) (m : Mem) → P a m → Q a m)
    → Safe Q r
Safe-mono P Q r h weaken = Ends-mono Unit Unit P Q r h (λ u. u) weaken
