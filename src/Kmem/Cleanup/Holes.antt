-- ===== src/Kmem/Cleanup/Holes.antt =====
-- The first loop of `space_valloc_cleanup`: the list of holes less those of the reclaimed pages.
use osa_kernel_arm_boot_step.Prelude.{
  ℕ, zero, suc, ◌+◌, ◌≤◌, ◌<◌, ◌^◌, ◌≡◌, ◌≢◌, refl, sym, ◌∙◌, List, [], ◌∷◌, Bool, true, false, not,
  arith, ◌==◌, Bool-cases, inl, inr, length, keep, Absent,
}
use osa_kernel_arm_boot_step.Kmem.State.{
  Ptr, null, space_page_of, Mem, Returns, Returns-mono, set_next, inc, count_hole_out, set_holes,
}
use osa_kernel_arm_boot_step.Kmem.Chain.{
  Chain, hole_next, hole_size, All-of_Absent, Chain-frame, Absent-keep, HasHoles,
}
use osa_kernel_arm_boot_step.Kmem.Cleanup.{clean_holes, reclaimable}

-- The hole's page is not taken back.
abbrev pub stays : Mem → Ptr → Bool
stays m x = not (reclaimable m (space_page_of x))

-- What the loop leaves as it is: the pages, the sizes, and the allocator but for the holes.
pub record Kept (m m' : Mem) : Type 0 where
  pub pages : m'.page ≡ m.page
  pub sizes : (a : Ptr) → hole_size m' a ≡ hole_size m a
  pub alloc : m'.alloc ≡ record (m.alloc) { holes = (m'.alloc).holes; nholes = (m'.alloc).nholes }

record Cleaned (p : Ptr) (xs : List Ptr) (m m' : Mem) : Type 0 where
  chain : Chain (hole_next m') (hole_next m' p) (keep (stays m) xs)
  same : (a : Ptr) → a ≢ p → Absent a xs → hole_next m' a ≡ hole_next m a
  kept : Kept m m'
  holes : (m'.alloc).holes ≡ (m.alloc).holes
  count : (m'.alloc).nholes + length xs ≡ (m.alloc).nholes + length (keep (stays m) xs)

abbrev unlinked : (prev hole : Ptr) → Mem → Mem
unlinked prev hole m = count_hole_out (set_next prev (m.chunk hole).next m)

module _ (p x : Ptr) (xs : List Ptr) (m : Mem) (e : hole_next m p ≡ x)
    (out : Absent p (x ∷ xs)) where
  Cleaned-drop :
      (m' : Mem)
      → stays m x ≡ false
      → suc (length xs) ≤ (m.alloc).nholes
      → (m.alloc).nholes < 2 ^ 32
      → Cleaned p xs (unlinked p x m) m'
      → Cleaned p (x ∷ xs) m m'
  Cleaned-drop m' gone g b w = record {
    chain = rw gone (w.chain);
    same = λ a ne o. ground (arith, w.same a ne o.1);
    kept = record {
      pages = (w.kept).pages;
      sizes = λ a. ground (arith, (w.kept).sizes a);
      alloc = (w.kept).alloc;
    };
    holes = w.holes;
    count = ground (arith, w.count);
  }

  Cleaned-keep :
      (m' : Mem)
      → stays m x ≡ true
      → x ≢ null
      → Absent x xs
      → Cleaned x xs m m'
      → Cleaned p (x ∷ xs) m m'
  Cleaned-keep m' here nx ox w = record {
    chain = rw here (w.same p out.0 out.1 ∙ e, nx, Absent-keep (stays m) x xs ox, w.chain);
    same = λ a ne o. w.same a o.0 o.1;
    kept = w.kept;
    holes = w.holes;
    count = ground (arith, w.count);
  }

  unlinked-Chain :
      Chain (hole_next m) (hole_next m x) xs → Chain (hole_next (unlinked p x m)) (hole_next m x) xs
  unlinked-Chain c =
      Chain-frame (hole_next m) (hole_next (unlinked p x m)) (hole_next m x) xs c
        (All-of_Absent _ p xs out.1 λ a ne. ground arith)

  unlinked-next : hole_next (unlinked p x m) p ≡ hole_next m x
  unlinked-next = ground arith

-- The loop behind a hole that stays.
clean_holes-Cleaned :
    (fuel : ℕ) (p hole : Ptr) (n : ℕ) (m : Mem) (xs : List Ptr)
    → p ≢ null
    → hole_next m p ≡ hole
    → Absent p xs
    → Chain (hole_next m) hole xs
    → length xs < fuel
    → length xs ≤ (m.alloc).nholes
    → (m.alloc).nholes < 2 ^ 32
    → Returns (λ _ m'. Cleaned p xs m m') (clean_holes fuel p hole n m)
unfolding clean_holes
clean_holes-Cleaned zero p hole n m xs np e out c f g b = absurd (omega arith)
clean_holes-Cleaned (suc fuel) p hole n m [] np e out c f g b = rw c (record {
  chain = e ∙ c;
  same = λ a ne o. refl;
  kept = record { pages = refl; sizes = λ a. refl; alloc = refl };
  holes = refl;
  count = refl;
})
clean_holes-Cleaned (suc fuel) p hole n m (x ∷ xs) np e out c f g b =
    let at : hole_next m p ≡ x = e ∙ c.0 in
    let np' : (p == null) ≡ false = ground arith in
    let nx : (x == null) ≡ false = ground arith in
    rw (c.0, nx)
      (elim (Bool-cases (reclaimable m (space_page_of x))) [
        | inl gone ↦
            rw (gone, np')
              (Returns-mono _ _ _
                (clean_holes-Cleaned fuel p (hole_next m x) (inc 32 n) (unlinked p x m) xs np
                  (unlinked-next p x xs m at out) out.1 (unlinked-Chain p x xs m at out c.3)
                  (omega arith) (ground arith) (ground arith))
                (λ k m' w. Cleaned-drop p x xs m at out m' (rw gone) g b w))
        | inr here ↦ rw here (
            Returns-mono _ _ _
              (clean_holes-Cleaned fuel x (hole_next m x) n m xs c.1 refl c.2 c.3 (omega arith)
                (omega arith) b)
              (λ k m' w. Cleaned-keep p x xs m at out m' (rw here) c.1 c.2 w))
      ])

abbrev unlinked_head : (hole : Ptr) → Mem → Mem
unlinked_head hole m = count_hole_out (set_holes (m.chunk hole).next m)

pub length-keep : (p : Ptr → Bool) (xs : List Ptr) → length (keep p xs) ≤ length xs
length-keep p [] = omega arith
length-keep p (x ∷ xs) = ground (arith, length-keep p xs)

-- The holes of the pages that are not taken back are left, in their order and with their count.
pub record Swept (m : Mem) (xs : List Ptr) (m' : Mem) : Type 0 where
  pub holes : HasHoles m' (keep (stays m) xs)
  pub kept : Kept m m'

module _ (x : Ptr) (xs : List Ptr) (m m' : Mem) where
  Swept-drop : stays m x ≡ false → Swept (unlinked_head x m) xs m' → Swept m (x ∷ xs) m'
  Swept-drop gone r = record {
    holes = rw gone (r.holes);
    kept = record { pages = (r.kept).pages; sizes = (r.kept).sizes; alloc = (r.kept).alloc };
  }

  Swept-keep : HasHoles m (x ∷ xs) → stays m x ≡ true → Cleaned x xs m m' → Swept m (x ∷ xs) m'
  Swept-keep h here w =
      let c = h.chain in
      let n = h.count in
      let b = h.fits in
      record {
        holes = record {
          chain = rw here (w.holes ∙ c.0, c.1, Absent-keep (stays m) x xs c.2, w.chain);
          count = rw here (omega (arith, w.count));
          fits = rw here (omega (arith, length-keep (stays m) xs));
        };
        kept = w.kept;
      }

-- The loop from the head of the list.
clean_holes-Swept :
    (fuel : ℕ) (hole : Ptr) (n : ℕ) (m : Mem) (xs : List Ptr)
    → (m.alloc).holes ≡ hole
    → HasHoles m xs
    → length xs < fuel
    → Returns (λ _ m'. Swept m xs m') (clean_holes fuel null hole n m)
unfolding clean_holes
clean_holes-Swept zero hole n m xs e h f = absurd (omega arith)
clean_holes-Swept (suc fuel) hole n m [] e h f =
    rw (sym e ∙ h.chain)
      (record { holes = h; kept = record { pages = refl; sizes = λ a. refl; alloc = refl } })
clean_holes-Swept (suc fuel) hole n m (x ∷ xs) e h f =
    let c = h.chain in
    let at : hole ≡ x = sym e ∙ c.0 in
    let nx : (x == null) ≡ false = ground arith in
    rw (at, nx)
      (elim (Bool-cases (reclaimable m (space_page_of x))) [
        | inl gone ↦ rw gone (
            Returns-mono _ _ _
              (clean_holes-Swept fuel (hole_next m x) (inc 32 n) (unlinked_head x m) xs refl
                (record {
                  chain = c.3;
                  count = ground (arith, h.count, h.fits);
                  fits = omega (arith, h.fits);
                })
                (omega arith))
              (λ k m' r. Swept-drop x xs m m' (rw gone) r))
        | inr here ↦ rw here (
            Returns-mono _ _ _
              (clean_holes-Cleaned fuel x (hole_next m x) n m xs c.1 refl c.2 c.3 (omega arith)
                (omega (arith, h.count)) (omega (arith, h.count, h.fits)))
              (λ k m' w. Swept-keep x xs m m' h (rw here) w))
      ])

-- On a well-formed list of holes the loop ends. The holes of the pages that are not taken back
-- are left, in their order and with their count; no page, size or other field changes.
pub clean_holes-keep :
    (m : Mem) (xs : List Ptr)
    → HasHoles m xs
    → Returns (λ _ m'. Swept m xs m') (clean_holes ((m.alloc).nholes + 1) null (m.alloc).holes 0 m)
clean_holes-keep m xs h =
    clean_holes-Swept ((m.alloc).nholes + 1) (m.alloc).holes 0 m xs refl h (omega (arith, h.count))
