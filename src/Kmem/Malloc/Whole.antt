-- ===== src/Kmem/Malloc/Whole.antt =====
-- kmem.c: `kmalloc` as a whole, on the lists of holes, of pages and of free pages.
use osa_kernel_arm_boot_step.Prelude.{
  ℕ, ◌+◌, ◌-◌, ◌<◌, ◌≤◌, ◌^◌, ◌≡◌, ◌≢◌, refl, sym, ap, ◌∙◌, List, [], ◌∷◌, false, none, some,
  Option, arith, ltb, leb, ◌==◌, Absent, All, Bool-cases, inl, inr,
}
use mathlib.Core.Path.{subst}
use osa_kernel_arm_boot_step.Kmem.State.{
  Ptr, null, Mem, Safe, sizeof_chunk, min_hole_size, max_hole_size, align32, space_page_of,
}
use osa_kernel_arm_boot_step.Kmem.Chain.{hole_next, hole_size, Chain-frame, All-of_Absent}
use osa_kernel_arm_boot_step.Kmem.Members.{All-found}
use osa_kernel_arm_boot_step.Kmem.Cleanup.Whole.{HasLists}
use osa_kernel_arm_boot_step.Kmem.Lists.{Consistent, HasLists-holes}
use osa_kernel_arm_boot_step.Kmem.Malloc.{
  remaining_of, split_hole, take_hole, use_hole, allocate, kmalloc,
}
use osa_kernel_arm_boot_step.Kmem.Malloc.Holes.{first_fit, after_search, find_hole-first_fit}
use osa_kernel_arm_boot_step.Kmem.Malloc.Unlink.{drop_fit, take_hole-HasHoles}
use osa_kernel_arm_boot_step.Kmem.Malloc.Taken.{Ready}
use osa_kernel_arm_boot_step.Kmem.Malloc.Paged.{Allocated, finish-Consistent, from_page-Consistent}

-- No hole begins inside another one, and a hole does not go beyond its page.
pub record IsSpread (m : Mem) (hs : List Ptr) : Type 0 where
  pub apart : (h x : Ptr) → ¬ Absent h hs → ¬ Absent x hs → h < x → h + hole_size m h ≤ x
  pub inside :
      (h k : Ptr) → ¬ Absent h hs → k < hole_size m h → space_page_of (h + k) ≡ space_page_of h

Absent-of : (c : Ptr) (xs : List Ptr) → ((a : Ptr) → ¬ Absent a xs → c ≢ a) → Absent c xs
Absent-of c [] h = tt
Absent-of c (x ∷ xs) h =
    (h x (λ out. out.0 refl), Absent-of c xs (λ a here. h a (λ out. here out.1)))

module _ (size : Ptr → ℕ) (n : ℕ) where
  pub first_fit-found :
      (p : Ptr) (xs : List Ptr) (q h : Ptr)
      → first_fit size n p xs ≡ some (q, h)
      → (n ≤ size h) × ¬ Absent h xs
  unfolding first_fit
  first_fit-found p [] q h e = cc
  first_fit-found p (x ∷ xs) q h e = elim (Bool-cases (leb n (size x))) [
    | inl fits ↦ let same : x ≡ h = ground arith in (ground arith, λ out. out.0 (sym same))
    | inr small ↦
        let rest : first_fit size n x xs ≡ some (q, h) = ground arith in
        let found = first_fit-found x xs q h rest in (found.0, λ out. found.1 out.1)
  ]

  drop_fit-All : (P : Ptr → Type 0) (xs : List Ptr) → All P xs → All P (drop_fit size n xs)
  unfolding drop_fit
  drop_fit-All P [] all = tt
  drop_fit-All P (x ∷ xs) all = elim (Bool-cases (leb n (size x))) [
    | inl fits ↦ rw fits all.1
    | inr small ↦ rw small (all.0, drop_fit-All P xs all.1)
  ]

module _ (size : ℕ) (m : Mem) (hs ps fs : List Ptr) (w : HasLists m hs ps fs) (q h : Ptr)
    (e : first_fit (hole_size m) (size + sizeof_chunk) null hs ≡ some (q, h)) where
  pub take_hole-HasLists :
      HasLists (take_hole q h m).1 (drop_fit (hole_size m) (size + sizeof_chunk) hs) ps fs
  unfolding take_hole
  take_hole-HasLists =
      HasLists-holes m (take_hole q h m).1 hs _ ps fs w
        (take_hole-HasHoles m hs (size + sizeof_chunk) w.holes e)
        (drop_fit-All (hole_size m) (size + sizeof_chunk) _ hs w.on_pages)
        (elim (Bool-cases (q == null)) [
          | inl head ↦ rw head (record {
            page = refl;
            pages = refl;
            npages = refl;
            nzpages = refl;
            free_pages = refl;
            free_npages = refl;
          })
          | inr inner ↦ rw inner (record {
            page = refl;
            pages = refl;
            npages = refl;
            nzpages = refl;
            free_pages = refl;
            free_npages = refl;
          })
        ])

  module _ (s : IsSpread m hs) (room : size + sizeof_chunk + min_hole_size < hole_size m h)
      (fits : hole_size m h < 2 ^ 16) where
    pub split_at : (split_hole size h m).0 ≡ h + (hole_size m h - (size + sizeof_chunk))
    unfolding split_hole
    split_at = ground arith

    -- The header of the new chunk is that of no hole.
    split-Absent : Absent (split_hole size h m).0 hs
    split-Absent =
        let found = first_fit-found (hole_size m) (size + sizeof_chunk) null hs q h e in
        Absent-of (split_hole size h m).0 hs (λ a here eq.
          let far = s.apart h a found.1 here in
          absurd (omega (arith, split_at, far (omega (arith, split_at)))))

    pub split_hole-HasLists : HasLists (split_hole size h m).1 hs ps fs
    unfolding split_hole
    split_hole-HasLists =
        HasLists-holes m (split_hole size h m).1 hs hs ps fs w
          (record {
            chain =
                Chain-frame (hole_next m) (hole_next (split_hole size h m).1) (m.alloc).holes hs
                  (w.holes).chain
                  (All-of_Absent _ (split_hole size h m).0 hs split-Absent (λ a ne. ground arith));
            count = (w.holes).count;
            fits = (w.holes).fits;
          })
          w.on_pages
          (record {
            page = refl;
            pages = refl;
            npages = refl;
            nzpages = refl;
            free_pages = refl;
            free_npages = refl;
          })

    split_hole-Ready :
        ((p : Ptr) → (m.page p).nchunks + 1 < 2 ^ 16)
        → Ready (space_page_of (split_hole size h m).0) (split_hole size h m).1
    unfolding split_hole
    split_hole-Ready few =
        let found = first_fit-found (hole_size m) (size + sizeof_chunk) null hs q h e in
        let page : space_page_of (split_hole size h m).0 ≡ space_page_of h =
          ap space_page_of split_at
          ∙ s.inside h (hole_size m h - (size + sizeof_chunk)) found.1 (omega arith) in
        let here : ¬ Absent (space_page_of h) ps = All-found _ h hs w.on_pages found.1 in
        record {
          consistent = record { hs = hs; ps = ps; fs = fs; lists = split_hole-HasLists };
          here = subst (λ a. ¬ Absent a ps) (sym page) here;
          few = few (space_page_of (split_hole size h m).0);
        }

  take_hole-Ready :
      ((p : Ptr) → (m.page p).nchunks + 1 < 2 ^ 16)
      → Ready (space_page_of (take_hole q h m).0) (take_hole q h m).1
  unfolding take_hole
  take_hole-Ready few =
      let found = first_fit-found (hole_size m) (size + sizeof_chunk) null hs q h e in
      record {
        consistent = record { hs = _; ps = ps; fs = fs; lists = take_hole-HasLists };
        here = All-found _ h hs w.on_pages found.1;
        few = elim (Bool-cases (q == null)) [
          | inl head ↦ rw head (few (space_page_of h))
          | inr inner ↦ rw inner (few (space_page_of h))
        ];
      }

  split_hole-size : size < 2 ^ 16 → size ≤ hole_size (split_hole size h m).1 (split_hole size h m).0
  unfolding split_hole
  split_hole-size short = ground (arith, short)

  pub take_hole-size : size ≤ hole_size (take_hole q h m).1 (take_hole q h m).0
  unfolding take_hole
  take_hole-size =
      let found = first_fit-found (hole_size m) (size + sizeof_chunk) null hs q h e in
      ground (arith, found.0)

-- The hole that was found, whole or in part.
use_hole-Ready :
    (size : ℕ) (m : Mem) (hs ps fs : List Ptr) (q h : Ptr)
    → HasLists m hs ps fs
    → first_fit (hole_size m) (size + sizeof_chunk) null hs ≡ some (q, h)
    → IsSpread m hs
    → hole_size m h < 2 ^ 16
    → ((p : Ptr) → (m.page p).nchunks + 1 < 2 ^ 16)
    → size < 2 ^ 16
    → Ready (space_page_of (use_hole size q h m).0) (use_hole size q h m).1
      × size ≤ hole_size (use_hole size q h m).1 (use_hole size q h m).0
unfolding use_hole
use_hole-Ready size m hs ps fs q h w e s fits few short =
    let found = first_fit-found (hole_size m) (size + sizeof_chunk) null hs q h e in
    elim (Bool-cases (ltb min_hole_size (remaining_of size h m))) [
      | inl large ↦
          let room : size + sizeof_chunk + min_hole_size < hole_size m h =
            ground (arith, found.0) in
          rw large (
            split_hole-Ready size m hs ps fs w q h e s room fits few,
            split_hole-size size m hs ps fs w q h e short,
          )
      | inr small ↦
          rw small
            (take_hole-Ready size m hs ps fs w q h e few, take_hole-size size m hs ps fs w q h e)
    ]

-- What follows the search, whatever that has found.
allocate-Consistent :
    (size : ℕ) (m : Mem) (c : Consistent m) (found : Option (Ptr × Ptr))
    → first_fit (hole_size m) (size + sizeof_chunk) null c.hs ≡ found
    → size < 2 ^ 16
    → 0 < (m.alloc).npages
    → ((p : Ptr) → (m.page p).nchunks + 1 < 2 ^ 16)
    → ((a : Ptr) → hole_size m a < 2 ^ 16)
    → IsSpread m c.hs
    → Safe (Allocated size) (allocate size m)
unfolding allocate after_search
allocate-Consistent size m c none e short some_page few fits s =
    let search =
      find_hole-first_fit ((m.alloc).nholes + 1) size null (m.alloc).holes m c.hs
        (((c.lists).holes).chain) (omega (arith, ((c.lists).holes).count)) in
    rw (search, e) (from_page-Consistent size m c short some_page few)
allocate-Consistent size m c (some (q, h)) e short some_page few fits s =
    let search =
      find_hole-first_fit ((m.alloc).nholes + 1) size null (m.alloc).holes m c.hs
        (((c.lists).holes).chain) (omega (arith, ((c.lists).holes).count)) in
    let used = use_hole-Ready size m c.hs c.ps c.fs q h c.lists e s (fits h) few short in
    rw (search, e)
      (finish-Consistent size (use_hole size q h m).0 (space_page_of (use_hole size q h m).0)
        (use_hole size q h m).1 (used.0) (used.1))

-- If the lists and counters are consistent, there is a page, no page counts 2 ^ 16 - 1 chunks, and
-- the holes are apart and each on one page, a request for at most the largest hole ends: either
-- with the panic that no memory is left, or with the data of a chunk whose header has room for the
-- request, rounded up, on a page in use, and with consistent lists and counters.
pub kmalloc-Consistent :
    (requested : ℕ) (m : Mem) (c : Consistent m)
    → align32 requested ≤ max_hole_size
    → 0 < (m.alloc).npages
    → ((p : Ptr) → (m.page p).nchunks + 1 < 2 ^ 16)
    → ((a : Ptr) → hole_size m a < 2 ^ 16)
    → IsSpread m c.hs
    → Safe (Allocated (align32 requested)) (kmalloc requested m)
unfolding kmalloc
kmalloc-Consistent requested m c small some_page few fits s =
    let fine : ltb max_hole_size (align32 requested) ≡ false = ground arith in
    rw fine (
      allocate-Consistent (align32 requested) m c
        (first_fit (hole_size m) (align32 requested + sizeof_chunk) null c.hs) refl (omega arith)
        some_page few fits s)
