-- ===== src/Kmem/Malloc/Unlink.antt =====
-- kmem.c: the list of holes after `kmalloc` has taken one.
use osa_kernel_arm_boot_step.Prelude.{
  ℕ, suc, ◌<◌, ◌≡◌, ◌≢◌, refl, sym, ◌∙◌, List, [], ◌∷◌, some, arith, leb, ◌==◌, Bool-cases, inl,
  inr, if◌then◌else◌, update, length, ◌^◌, Absent,
}
use mathlib.Core.Path.{fun_ext, subst}
use osa_kernel_arm_boot_step.Kmem.State.{Ptr, null, Mem}
use osa_kernel_arm_boot_step.Kmem.Chain.{
  Chain, hole_next, hole_size, null-Absent, All-of_Absent, HasHoles, Chain-frame, All-of_Absent₂,
}
use osa_kernel_arm_boot_step.Kmem.Malloc.{take_hole}
use osa_kernel_arm_boot_step.Kmem.Malloc.Holes.{first_fit}

-- The list without its first item of size at least `n`.
unfoldable pub drop_fit : (Ptr → ℕ) → ℕ → List Ptr → List Ptr
drop_fit size n [] = []
drop_fit size n (x ∷ xs) = if leb n (size x) then xs else x ∷ drop_fit size n xs

abbrev relink : (Ptr → Ptr) → (prev hole : Ptr) → Ptr → Ptr
relink next prev hole = update (update next prev (next hole)) hole null

module _ (size : Ptr → ℕ) (n : ℕ) where
  first_fit-Absent :
      (a p q h : Ptr) (xs : List Ptr)
      → Absent a xs
      → first_fit size n p xs ≡ some (q, h)
      → (a ≢ h) × (a ≢ p → a ≢ q)
  unfolding first_fit
  first_fit-Absent a p q h [] out e = cc
  first_fit-Absent a p q h (x ∷ xs) out e = ground (arith, first_fit-Absent a x q h xs out.1)

  pub drop_fit-Absent : (a : Ptr) (xs : List Ptr) → Absent a xs → Absent a (drop_fit size n xs)
  unfolding drop_fit
  drop_fit-Absent a [] out = tt
  drop_fit-Absent a (x ∷ xs) out = ground (arith, drop_fit-Absent a xs out.1)

  first_fit-Chain :
      (next : Ptr → Ptr) (p : Ptr) (xs : List Ptr) {q h : Ptr}
      → Absent p xs
      → Chain next (next p) xs
      → first_fit size n p xs ≡ some (q, h)
      → Chain (relink next q h) (relink next q h p) (drop_fit size n xs)
  unfolding first_fit drop_fit
  first_fit-Chain next p [] out c e = cc
  first_fit-Chain next p (x ∷ xs) {q} {h} out c e = elim (Bool-cases (leb n (size x))) [
    | inl fits ↦ rw fits (
        let qh : (p ≡ q) × (x ≡ h) = ground arith in
        rw (head qh) (
          Chain-frame next (relink next q h) (next x) xs c.3
            (All-of_Absent₂ _ p x xs out.1 c.2 (λ a np nx. ground arith))))
    | inr small ↦ rw small (
        let e' : first_fit size n x xs ≡ some (q, h) = ground arith in
        let far = first_fit-Absent p x q h xs out.1 e' in
        let stay : relink next q h p ≡ x = ground arith in
        (stay, c.1, drop_fit-Absent x xs c.2, first_fit-Chain next x xs c.2 c.3 e'))
  ]
    where
      head : (p ≡ q) × (x ≡ h) → relink next q h p ≡ next x
      head qh = ground arith

length-drop_fit :
    (size : Ptr → ℕ) (n : ℕ) (p q h : Ptr) (xs : List Ptr)
    → first_fit size n p xs ≡ some (q, h)
    → length xs ≡ suc (length (drop_fit size n xs))
unfolding first_fit drop_fit
length-drop_fit size n p q h [] e = cc
length-drop_fit size n p q h (x ∷ xs) e = ground (arith, length-drop_fit size n x q h xs)

module _ (m : Mem) (q h : Ptr) where
  take_hole-next_inner :
      (a : Ptr) → q ≢ null → hole_next (take_hole q h m).1 a ≡ relink (hole_next m) q h a
  unfolding take_hole
  take_hole-next_inner a ne = ground arith

  take_hole-next_head :
      (a : Ptr) → q ≡ null → h ≢ a → hole_next (take_hole q h m).1 a ≡ hole_next m a
  unfolding take_hole
  take_hole-next_head a e ne = ground arith

  take_hole-holes :
      (((take_hole q h m).1).alloc).holes ≡ (if q == null then hole_next m h else (m.alloc).holes)
  unfolding take_hole
  take_hole-holes = ground arith

  take_hole-nholes :
      (k : ℕ) → (m.alloc).nholes ≡ suc k → suc k < 2 ^ 32 → (((take_hole q h m).1).alloc).nholes ≡ k
  unfolding take_hole
  take_hole-nholes k e b = ground arith

take_hole-Chain :
    (m : Mem) (n : ℕ) (q h : Ptr) (xs : List Ptr)
    → Chain (hole_next m) (m.alloc).holes xs
    → first_fit (hole_size m) n null xs ≡ some (q, h)
    → Chain
        (hole_next (take_hole q h m).1)
        (((take_hole q h m).1).alloc).holes
        (drop_fit (hole_size m) n xs)
unfolding first_fit drop_fit
take_hole-Chain m n q h [] c d = cc
take_hole-Chain m n q h (x ∷ xs) c d = elim (Bool-cases (leb n (hole_size m x))) [
  | inl fits ↦
      let head : (q ≡ null) × (h ≡ x) = ground arith in
      let start : (((take_hole q h m).1).alloc).holes ≡ hole_next m x =
        ground (arith, take_hole-holes m q h) in
      rw (fits, start)
        (Chain-frame (hole_next m) (hole_next (take_hole q h m).1) (hole_next m x) xs c.3
          (All-of_Absent _ x xs c.2 λ a ne. take_hole-next_head m q h a head.0 (ground arith)))
  | inr small ↦
      let d' : first_fit (hole_size m) n x xs ≡ some (q, h) = ground arith in
      let far =
        first_fit-Absent (hole_size m) n null x q h xs
          (null-Absent (hole_next m) (hole_next m x) xs c.3) d' in
      let inner : q ≢ null = λ e. far.1 (λ f. c.1 (sym f)) (sym e) in
      let start : (((take_hole q h m).1).alloc).holes ≡ x = ground (arith, take_hole-holes m q h) in
      let after =
        subst (λ (f : Ptr → Ptr). Chain f (f x) (drop_fit (hole_size m) n xs))
          (sym (fun_ext (λ a. take_hole-next_inner m q h a inner)))
          (first_fit-Chain (hole_size m) n (hole_next m) x xs c.2 c.3 d') in
      rw (small, start) (refl, c.1, drop_fit-Absent (hole_size m) n x xs c.2, after)
]

-- If the search of a well-formed list of holes stops at a hole, the list without this hole is
-- well formed after `take_hole`, with the others in their order and with their count.
pub take_hole-HasHoles :
    (m : Mem) (xs : List Ptr) (n : ℕ) {q h : Ptr}
    → HasHoles m xs
    → first_fit (hole_size m) n null xs ≡ some (q, h)
    → HasHoles (take_hole q h m).1 (drop_fit (hole_size m) n xs)
take_hole-HasHoles m xs n {q} {h} w e =
    let k : length xs ≡ suc (length (drop_fit (hole_size m) n xs)) =
      length-drop_fit (hole_size m) n null q h xs e in
    record {
      chain = take_hole-Chain m n q h xs w.chain e;
      count = take_hole-nholes m q h _ (w.count ∙ k) (omega (arith, w.fits));
      fits = omega (arith, w.fits);
    }
