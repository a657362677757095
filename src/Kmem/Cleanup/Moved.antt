-- ===== src/Kmem/Cleanup/Moved.antt =====
-- kmem.c: a page that `space_valloc_cleanup` moves to the list of free pages.
use osa_kernel_arm_boot_step.Prelude.{
  suc, ◌+◌, ◌≤◌, ◌<◌, ◌^◌, ◌≡◌, ◌≢◌, refl, ◌∙◌, List, [], ◌∷◌, Bool, true, false, not, arith, ◌==◌,
  ltb, if◌then◌else◌, Bool-cases, inl, inr, length, keep, Absent,
}
use osa_kernel_arm_boot_step.Kmem.State.{Ptr, null, Mem}
use osa_kernel_arm_boot_step.Kmem.Chain.{Chain, page_next, Absent-keep}
use osa_kernel_arm_boot_step.Kmem.Cleanup.{reclaimable, unlink_page, release_page}

-- The list of free pages with the pages of a list in front that are taken back, the last one first.
unfoldable pub releases : (Ptr → Bool) → List Ptr → List Ptr → List Ptr
releases dead [] fs = fs
releases dead (x ∷ xs) fs = if dead x then releases dead xs (x ∷ fs) else releases dead xs fs

-- The pointer that `link_page` writes.
abbrev pub link_at : Mem → Ptr → Ptr
link_at m prev = if prev == null then (m.alloc).pages else page_next m prev

abbrev pub live : (Ptr → Bool) → Ptr → Bool
live dead x = not (dead x)

-- The fields of the allocator that the loop does not write.
pub record SameAlloc (m m' : Mem) : Type 0 where
  pub first : (m'.alloc).first ≡ (m.alloc).first
  pub holes : (m'.alloc).holes ≡ (m.alloc).holes
  pub nholes : (m'.alloc).nholes ≡ (m.alloc).nholes
  pub nchunks : (m'.alloc).nchunks ≡ (m.alloc).nchunks
  pub allocated : (m'.alloc).allocated ≡ (m.alloc).allocated

-- What a page has but its link and its count of chunks stays.
pub record SameFields (m m' : Mem) : Type 0 where
  pub start : (a : Ptr) → (m'.page a).start ≡ (m.page a).start
  pub end : (a : Ptr) → (m'.page a).end ≡ (m.page a).end
  pub offset : (a : Ptr) → (m'.page a).offset ≡ (m.page a).offset
  pub allocator : (a : Ptr) → (m'.page a).allocator ≡ (m.page a).allocator

-- What the loop behind `prev` makes of the pages `xs` and the free pages `fs`.
pub record Cleaned (dead : Ptr → Bool) (prev : Ptr) (xs fs : List Ptr) (m m' : Mem) : Type 0 where
  pub chain : Chain (page_next m') (link_at m' prev) (keep (live dead) xs)
  pub free : Chain (page_next m') (m'.alloc).free_pages (releases dead xs fs)
  pub head : prev ≢ null → (m'.alloc).pages ≡ (m.alloc).pages
  pub same : (a : Ptr) → a ≢ prev → Absent a xs → page_next m' a ≡ page_next m a
  pub chunks : m'.chunk ≡ m.chunk
  pub nchunks : (a : Ptr) → (m'.page a).nchunks ≡ (m.page a).nchunks
  pub fields : SameFields m m'
  pub npages : (m'.alloc).npages + length xs ≡ (m.alloc).npages + length (keep (live dead) xs)
  pub nzpages : (m'.alloc).nzpages + length xs ≡ (m.alloc).nzpages + length (keep (live dead) xs)
  pub same_alloc : SameAlloc m m'
  pub count :
      (m'.alloc).free_npages + length (keep (live dead) xs) ≡ (m.alloc).free_npages + length xs

SameAlloc-trans : (m k l : Mem) → SameAlloc m k → SameAlloc k l → SameAlloc m l
SameAlloc-trans m k l a b = record {
  first = b.first ∙ a.first;
  holes = b.holes ∙ a.holes;
  nholes = b.nholes ∙ a.nholes;
  nchunks = b.nchunks ∙ a.nchunks;
  allocated = b.allocated ∙ a.allocated;
}

abbrev pub moved : (prev x : Ptr) → Mem → Mem
moved prev x m = release_page x (unlink_page prev x m)

module _ (dead : Ptr → Bool) (prev x : Ptr) (xs fs : List Ptr) (m : Mem) (at : link_at m prev ≡ x)
    (out : Absent prev (x ∷ xs)) (nx : x ≢ null) (ox : Absent x xs) where
  pub moved-link : link_at (moved prev x m) prev ≡ page_next m x
  unfolding unlink_page release_page
  moved-link = ground (arith, out.0)

  pub moved-next : (a : Ptr) → prev ≢ a → x ≢ a → page_next (moved prev x m) a ≡ page_next m a
  unfolding unlink_page release_page
  moved-next a np nx' = ground arith

  pub moved-x : page_next (moved prev x m) x ≡ (m.alloc).free_pages
  unfolding unlink_page release_page
  moved-x = ground arith

  pub moved-reclaimable : (a : Ptr) → reclaimable (moved prev x m) a ≡ reclaimable m a
  unfolding unlink_page release_page
  moved-reclaimable a = ground arith

  moved-chunk : (moved prev x m).chunk ≡ m.chunk
  unfolding unlink_page release_page
  moved-chunk = elim (Bool-cases (prev == null)) [ inl e ↦ rw e refl | inr e ↦ rw e refl ]

  pub moved-free : ((moved prev x m).alloc).free_pages ≡ x
  unfolding release_page
  moved-free = refl

  moved-SameAlloc : SameAlloc m (moved prev x m)
  unfolding unlink_page release_page
  moved-SameAlloc = record {
    first = ground arith;
    holes = ground arith;
    nholes = ground arith;
    nchunks = ground arith;
    allocated = ground arith;
  }

  pub moved-counts :
      0 < (m.alloc).npages
      → (m.alloc).npages < 2 ^ 32
      → 0 < (m.alloc).nzpages
      → (m.alloc).nzpages ≤ (m.alloc).npages
      → (m.alloc).free_npages + 1 < 2 ^ 16
      → (((moved prev x m).alloc).npages + 1 ≡ (m.alloc).npages)
        × (((moved prev x m).alloc).nzpages + 1 ≡ (m.alloc).nzpages)
        × (((moved prev x m).alloc).free_npages ≡ (m.alloc).free_npages + 1)
        × (ltb ((unlink_page prev x m).alloc).npages ((unlink_page prev x m).alloc).nzpages ≡ false)
  unfolding unlink_page release_page
  moved-counts pages b one zb room = (ground arith, ground arith, ground arith, ground arith)

  pub Cleaned-drop :
      (m' : Mem)
      → dead x ≡ true
      → suc (length xs) ≤ (m.alloc).npages
      → (m.alloc).npages < 2 ^ 32
      → 0 < (m.alloc).nzpages
      → (m.alloc).nzpages < 2 ^ 32
      → (m.alloc).free_npages + suc (length xs) < 2 ^ 16
      → Cleaned dead prev xs (x ∷ fs) (moved prev x m) m'
      → Cleaned dead prev (x ∷ xs) fs m m'
  unfolding unlink_page release_page releases
  Cleaned-drop m' gone pages b some_zero zb room w = record {
    chain = rw gone (w.chain);
    free = rw gone (w.free);
    head = λ ne. ground (arith, w.head ne);
    same = λ a ne o. ground (arith, w.same a ne o.1);
    chunks = w.chunks ∙ moved-chunk;
    nchunks = λ a. ground (arith, w.nchunks a);
    fields = record {
      start = λ a. ground (arith, (w.fields).start a);
      end = λ a. ground (arith, (w.fields).end a);
      offset = λ a. ground (arith, (w.fields).offset a);
      allocator = λ a. ground (arith, (w.fields).allocator a);
    };
    npages = ground (arith, w.npages);
    nzpages = ground (arith, w.nzpages);
    same_alloc = SameAlloc-trans m (moved prev x m) m' moved-SameAlloc w.same_alloc;
    count = ground (arith, w.count);
  }

  pub Cleaned-keep :
      (m' : Mem) → dead x ≡ false → Cleaned dead x xs fs m m' → Cleaned dead prev (x ∷ xs) fs m m'
  unfolding releases
  Cleaned-keep m' here w =
      let start : link_at m' prev ≡ x = ground (arith, w.head nx, w.same prev out.0 out.1) in
      let behind : link_at m' x ≡ page_next m' x = ground arith in
      record {
        chain = rw here (start, nx, Absent-keep (live dead) x xs ox, rw behind at w.chain);
        free = rw here (w.free);
        head = λ ne. w.head nx;
        same = λ a ne o. w.same a o.0 o.1;
        chunks = w.chunks;
        nchunks = w.nchunks;
        fields = w.fields;
        npages = ground (arith, w.npages);
        nzpages = ground (arith, w.nzpages);
        same_alloc = w.same_alloc;
        count = ground (arith, w.count);
      }
