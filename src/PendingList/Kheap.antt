-- ===== src/PendingList/Kheap.antt =====
-- kmem.c behind the interface that the list of pending interrupts uses.
use mathlib.Core.Path.{subst}
use osa_kernel_arm_boot_step.Prelude.{
  ℕ, suc, ◌+◌, ◌-◌, ◌≤◌, ◌<◌, ◌≡◌, ◌≢◌, refl, sym, ap, ◌∙◌, Bool, true, false, Option, none, some,
  List, [], ◌∷◌, ◌==◌, leb, if◌then◌else◌, length, Absent, Bool-cases, inl, inr, arith,
}
use osa_kernel_arm_boot_step.Kmem.State.{
  Ptr, null, Mem, Linker, Run, ok, halted, wild, out_of_fuel, align32, max_hole_size, chunk_data,
  chunk_of, Returns, Ends, Ends-Returns, returned,
}
use osa_kernel_arm_boot_step.Kmem.Chain.{hole_size}
use osa_kernel_arm_boot_step.Kmem.Members.{In-keep, remove}
use osa_kernel_arm_boot_step.Kmem.Report.{kmalloc_report}
use osa_kernel_arm_boot_step.Kprintf.Digits.{Bytes}
use osa_kernel_arm_boot_step.Kmem.Sound.{IsRegion, IsSound, pages_of}
use osa_kernel_arm_boot_step.Kmem.Malloc.{kmalloc}
use osa_kernel_arm_boot_step.Kmem.Malloc.Sound.{IsGiven, kmalloc-rounded, kmalloc-size_too_large}
use osa_kernel_arm_boot_step.Kmem.Free.{kfree}
use osa_kernel_arm_boot_step.Kmem.Free.Sound.{kfree-IsSound, length-remove_one}
use osa_kernel_arm_boot_step.Kmem.Own.{IsGranted, IsOwn-alike, IsGranted-freed}
use osa_kernel_arm_boot_step.Kmem.Requests.{given-chunk, freed_before}
use osa_kernel_arm_boot_step.PendingList.{Allocator, sizeof_node}
use osa_kernel_arm_boot_step.PendingList.Data.{
  has_data, has_data-In, has_data-Absent, has_data-remove,
}

-- A sound heap on which the chunks in use were asked for a node at least, and these bytes are their own.
pub record Held (l : Linker) (ls : List Ptr) (m : Mem) : Type 0 where
  pub hs : List Ptr
  pub ps : List Ptr
  pub fs : List Ptr
  pub sound : IsSound l m ls hs ps fs
  pub granted : IsGranted m ls hs (λ c. sizeof_node)

-- The memory before `space_valloc_init`, with a zero in the one field that this leaves as it is, or
-- a sound heap with the chunks in use.
pub data Kheap (l : Linker) : Type 0 where
  raw : (m : Mem) → (m.alloc).nchunks ≡ 0 → Kheap l
  heap : (m : Mem) (ls : List Ptr) → Held l ls m → Kheap l

module _ (l : Linker) (r : IsRegion l) where
  abbrev pub chunks : Kheap l → List Ptr
  chunks (raw m zero_chunks) = []
  chunks (heap m ls w) = ls

  -- Before the initialisation there is no memory to use.
  abbrev pub heap_used : Kheap l → ℕ
  heap_used (raw m zero_chunks) = pages_of l
  heap_used (heap m ls w) = length ls

  abbrev pub heap_live : Kheap l → Ptr → Bool
  heap_live s p = has_data p (chunks s)

  pub new-Sound :
      (n : ℕ) (m : Mem) (ls : List Ptr) (w : Held l ls m) (p : Ptr) (m' : Mem)
      → sizeof_node ≤ align32 n
      → kmalloc n m ≡ ok p m'
      → Held l (chunk_of p ∷ ls) m' × (p ≡ chunk_data (chunk_of p))
  new-Sound n m ls w p m' big e = elim (Bool-cases (leb (align32 n) max_hole_size)) [
    | inl fits ↦
        let given : IsGiven l (align32 n) m ls w.hs p m' =
          subst (Ends (pages_of l ≤ suc (length ls)) (IsGiven l (align32 n) m ls w.hs)) e
            (kmalloc-rounded l n m ls w.hs w.ps w.fs r w.sound (ground arith)) in
        let same : chunk_of p ≡ given.chunk = given-chunk l r (align32 n) ls w.hs m p m' given in
        let granted : IsGranted m' (given.chunk ∷ ls) given.hs (λ c. sizeof_node) =
          IsOwn-alike m m' ls w.hs given.hs sizeof_node (align32 n) given.chunk w.granted given.own
            big ((given.sound).distinct).0 given.room given.sizes in
        (
          record {
            hs = given.hs;
            ps = given.ps;
            fs = given.fs;
            sound =
                subst (λ c. IsSound l m' (c ∷ ls) given.hs given.ps given.fs) (sym same)
                  given.sound;
            granted =
                subst (λ c. IsGranted m' (c ∷ ls) given.hs (λ a. sizeof_node)) (sym same) granted;
          },
          given.address ∙ ap chunk_data (sym same),
        )
    | inr large ↦ let refused = kmalloc-size_too_large n m (ground arith) in absurd (cc)
  ]

  pub kmalloc_result :
      (n : ℕ) (m : Mem) (ls : List Ptr) (w : Held l ls m) (big : sizeof_node ≤ align32 n)
      (x : Run Ptr)
      → kmalloc n m ≡ x
      → Option (Ptr × Kheap l)
  kmalloc_result n m ls w big (ok p m') e =
      some (p, heap m' (chunk_of p ∷ ls) ((new-Sound n m ls w p m' big e).0))
  kmalloc_result n m ls w big (halted reason) e = none
  kmalloc_result n m ls w big wild e = none
  kmalloc_result n m ls w big out_of_fuel e = none

  pub node_result :
      (n : ℕ) (m : Mem) (ls : List Ptr) (w : Held l ls m) (b : Bool)
      → leb sizeof_node (align32 n) ≡ b
      → Option (Ptr × Kheap l)
  unfolding kmalloc_result
  node_result n m ls w false e = none
  node_result n m ls w true e = kmalloc_result n m ls w (ground (arith, e)) (kmalloc n m) refl

  -- `kmalloc`, which the list calls for a node and for nothing smaller; before the initialisation it
  -- is not called.
  abbrev pub heap_kmalloc : ℕ → Kheap l → Option (Ptr × Kheap l)
  heap_kmalloc n (raw m zero_chunks) = none
  heap_kmalloc n (heap m ls w) = node_result n m ls w (leb sizeof_node (align32 n)) refl

  pub freed_heap :
      (p : Ptr) (m : Mem) (ls : List Ptr) (w : Held l ls m) (b : Bool) → has_data p ls ≡ b → Kheap l
  freed_heap p m ls w false e = heap m ls w
  freed_heap p m ls w true e =
      let c : Ptr = p - 8 in
      let at = has_data-In p ls e in
      let x =
        returned
          (λ _ m'.
            IsSound l m' (remove c ls) (c ∷ w.hs) w.ps w.fs
            × ((a : Ptr) → hole_size m' a ≡ hole_size m a))
          (kfree l (chunk_data c) m) (kfree-IsSound l r m ls w.hs w.ps w.fs w.sound c at.0) in
      heap x.1 (remove c ls) (record {
        hs = c ∷ w.hs;
        ps = w.ps;
        fs = w.fs;
        sound = (x.2).0;
        granted =
            IsGranted-freed m x.1 ls (remove c ls) w.hs (c ∷ w.hs) (λ a. sizeof_node)
              (λ a ia. (In-keep _ a ls ia).1) (λ y iy. freed_before c ls w.hs at.0 y iy) (x.2).1
              w.granted;
      })

  -- `kfree` of the data of a chunk in use; the list frees nothing else.
  abbrev pub heap_kfree : Ptr → Kheap l → Kheap l
  heap_kfree p (raw m zero_chunks) = raw m zero_chunks
  heap_kfree p (heap m ls w) = freed_heap p m ls w (has_data p ls) refl

  record IsNew (s : Kheap l) (p : Ptr) (t : Kheap l) : Type 0 where
    chunk : chunks t ≡ chunk_of p ∷ chunks s
    address : p ≡ chunk_data (chunk_of p)
    fresh : Absent (chunk_of p) (chunks s)
    used : heap_used t ≤ heap_used s + 1

  kmalloc_result-IsNew :
      (n : ℕ) (m : Mem) (ls : List Ptr) (w : Held l ls m) (big : sizeof_node ≤ align32 n)
      (x : Run Ptr) (e : kmalloc n m ≡ x) (p : Ptr) (t : Kheap l)
      → kmalloc_result n m ls w big x e ≡ some (p, t)
      → IsNew (heap m ls w) p t
  unfolding kmalloc_result
  kmalloc_result-IsNew n m ls w big (ok p0 m') e p t h =
      let v = new-Sound n m ls w p0 m' big e in
      let value : Option (Ptr × Kheap l) → Ptr × Kheap l =
        λ o. elim o [ none ↦ (p0, heap m' (chunk_of p0 ∷ ls) v.0) | some y ↦ y ] in
      let same : ◌≡◌ {A = Ptr × Kheap l} (p0, heap m' (chunk_of p0 ∷ ls) v.0) (p, t) = ap value h in
      subst (λ y. IsNew (heap m ls w) y.0 y.1) same
        (record {
          chunk = refl;
          address = v.1;
          fresh = (((v.0).sound).distinct).0;
          used = omega arith;
        })
  kmalloc_result-IsNew n m ls w big (halted reason) e p t h = absurd (cc)
  kmalloc_result-IsNew n m ls w big wild e p t h = absurd (cc)
  kmalloc_result-IsNew n m ls w big out_of_fuel e p t h = absurd (cc)

  node_result-IsNew :
      (n : ℕ) (m : Mem) (ls : List Ptr) (w : Held l ls m) (b : Bool)
      (e : leb sizeof_node (align32 n) ≡ b) (p : Ptr) (t : Kheap l)
      → node_result n m ls w b e ≡ some (p, t)
      → IsNew (heap m ls w) p t
  unfolding node_result
  node_result-IsNew n m ls w false e p t h = absurd (cc)
  node_result-IsNew n m ls w true e p t h =
      kmalloc_result-IsNew n m ls w (ground (arith, e)) (kmalloc n m) refl p t h

  heap_kmalloc-IsNew :
      (n : ℕ) (s : Kheap l) (p : Ptr) (t : Kheap l) → heap_kmalloc n s ≡ some (p, t) → IsNew s p t
  heap_kmalloc-IsNew n (raw m zero_chunks) p t h = absurd (cc)
  heap_kmalloc-IsNew n (heap m ls w) p t h = node_result-IsNew n m ls w _ refl p t h

  kmalloc_result-some :
      (n : ℕ) (m : Mem) (ls : List Ptr) (w : Held l ls m) (big : sizeof_node ≤ align32 n)
      (x : Run Ptr) (e : kmalloc n m ≡ x)
      → Returns (IsGiven l (align32 n) m ls w.hs) x
      → (p : Ptr) × (t : Kheap l) × (kmalloc_result n m ls w big x e ≡ some (p, t))
  unfolding kmalloc_result
  kmalloc_result-some n m ls w big (ok p m') e g = (p, _, refl)
  kmalloc_result-some n m ls w big (halted reason) e g = absurd g
  kmalloc_result-some n m ls w big wild e g = absurd g
  kmalloc_result-some n m ls w big out_of_fuel e g = absurd g

  small_node : align32 sizeof_node ≤ max_hole_size
  unfolding align32
  small_node = omega arith

  -- With fewer chunks in use than pages less one, a node is allocated.
  pub heap_kmalloc_succeeds :
      (s : Kheap l)
      → heap_used s < pages_of l - 1
      → (p : Ptr) × (t : Kheap l) × (heap_kmalloc sizeof_node s ≡ some (p, t))
  unfolding align32 node_result
  heap_kmalloc_succeeds (raw m zero_chunks) few = absurd (omega arith)
  heap_kmalloc_succeeds (heap m ls w) few =
      kmalloc_result-some sizeof_node m ls w _ (kmalloc sizeof_node m) refl (
        Ends-Returns (pages_of l ≤ suc (length ls)) (IsGiven l (align32 sizeof_node) m ls w.hs)
          (kmalloc sizeof_node m)
          (kmalloc-rounded l sizeof_node m ls w.hs w.ps w.fs r w.sound small_node) (omega arith))

  pub heap_kmalloc-ne-null :
      (n : ℕ) (s : Kheap l) (p : Ptr) (t : Kheap l) → heap_kmalloc n s ≡ some (p, t) → p ≢ null
  heap_kmalloc-ne-null n s p t h z =
      let w = heap_kmalloc-IsNew n s p t h in absurd (omega (arith, w.address, z))

  pub heap_kmalloc_fresh :
      (n : ℕ) (s : Kheap l) (p : Ptr) (t : Kheap l)
      → heap_kmalloc n s ≡ some (p, t)
      → heap_live s p ≡ false
  heap_kmalloc_fresh n s p t h =
      let w = heap_kmalloc-IsNew n s p t h in
      ap (λ a. has_data a (chunks s)) w.address ∙ has_data-Absent (chunk_of p) (chunks s) w.fresh

  pub heap_kmalloc-live :
      (n : ℕ) (s : Kheap l) (p : Ptr) (t : Kheap l) (q : Ptr)
      → heap_kmalloc n s ≡ some (p, t)
      → heap_live t q ≡ (if p == q then true else heap_live s q)
  heap_kmalloc-live n s p t q h =
      let w = heap_kmalloc-IsNew n s p t h in
      ap (has_data q) w.chunk ∙ ap (λ a. if a == q then true else heap_live s q) (sym w.address)

  pub heap_kmalloc-used :
      (n : ℕ) (s : Kheap l) (p : Ptr) (t : Kheap l)
      → heap_kmalloc n s ≡ some (p, t)
      → heap_used t ≤ heap_used s + 1
  heap_kmalloc-used n s p t h = (heap_kmalloc-IsNew n s p t h).used

  freed_heap-live :
      (p : Ptr) (m : Mem) (ls : List Ptr) (w : Held l ls m) (b : Bool) (e : has_data p ls ≡ b)
      (q : Ptr)
      → heap_live (freed_heap p m ls w b e) q ≡ (if p == q then false else has_data q ls)
  unfolding freed_heap
  freed_heap-live p m ls w false e q = elim (Bool-cases (p == q)) [
    | inl same ↦ let pq : p ≡ q = ground arith in rw same (ap (λ a. has_data a ls) (sym pq) ∙ e)
    | inr other ↦ rw other refl
  ]
  freed_heap-live p m ls w true e q =
      let at = has_data-In p ls e in
      has_data-remove (p - 8) q ls (w.sound).distinct at.0
      ∙ ap (λ a. if a == q then false else has_data q ls) (sym at.1)

  pub heap_kfree-live :
      (p : Ptr) (s : Kheap l) (q : Ptr)
      → heap_live (heap_kfree p s) q ≡ (if p == q then false else heap_live s q)
  heap_kfree-live p (raw m zero_chunks) q = ground arith
  heap_kfree-live p (heap m ls w) q = freed_heap-live p m ls w (has_data p ls) refl q

  freed_heap-used :
      (p : Ptr) (m : Mem) (ls : List Ptr) (w : Held l ls m) (b : Bool) (e : has_data p ls ≡ b)
      → has_data p ls ≡ true
      → heap_used (freed_heap p m ls w b e) + 1 ≤ length ls
  unfolding freed_heap
  freed_heap-used p m ls w false e on = absurd (cc)
  freed_heap-used p m ls w true e on =
      let at = has_data-In p ls e in
      omega (arith, length-remove_one (p - 8) ls (w.sound).distinct at.0)

  pub heap_kfree-used :
      (p : Ptr) (s : Kheap l) → heap_live s p ≡ true → heap_used (heap_kfree p s) + 1 ≤ heap_used s
  heap_kfree-used p (raw m zero_chunks) on = absurd (cc)
  heap_kfree-used p (heap m ls w) on = freed_heap-used p m ls w (has_data p ls) refl on

  -- What a call of `kmalloc` prints.
  abbrev pub heap_message : ℕ → Kheap l → Bytes
  heap_message n (raw m zero_chunks) = []
  heap_message n (heap m ls w) = kmalloc_report n m

  -- The kernel's allocator has what the list needs.
  abbrev pub kheap : Allocator
  kheap = record {
    Store = Kheap l;
    kmalloc = heap_kmalloc;
    kfree = heap_kfree;
    message = heap_message;
    live = heap_live;
    used = heap_used;
    limit = pages_of l - 1;
    kmalloc-ne-null = heap_kmalloc-ne-null;
    kmalloc_fresh = heap_kmalloc_fresh;
    kmalloc-live = heap_kmalloc-live;
    kfree-live = heap_kfree-live;
    kmalloc-used = heap_kmalloc-used;
    kfree-used = heap_kfree-used;
    kmalloc_succeeds = heap_kmalloc_succeeds;
  }

  -- Nodes in use do not overlap.
  pub nodes_apart :
      (s : Kheap l) (p q : Ptr)
      → heap_live s p ≡ true
      → heap_live s q ≡ true
      → p < q
      → p + sizeof_node ≤ q
  nodes_apart (raw m zero_chunks) p q lp lq lt = absurd (cc)
  nodes_apart (heap m ls w) p q lp lq lt =
      let ip = has_data-In p ls lp in
      let iq = has_data-In q ls lq in
      let own = (w.granted).own (p - 8) (q - 8) ip.0 (inl iq.0) (omega (arith, lt, ip.1, iq.1)) in
      omega (arith, own, ip.1, iq.1)
