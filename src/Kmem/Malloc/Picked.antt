-- ===== src/Kmem/Malloc/Picked.antt =====
-- kmem.c: a hole that `kmalloc` chooses, whole or in part.
use osa_kernel_arm_boot_step.Prelude.{
  ℕ, ◌+◌, ◌≤◌, ◌≡◌, sym, List, [], ◌∷◌, some, arith, leb, Bool-cases, inl, inr, Absent,
}
use mathlib.Core.Path.{subst}
use osa_kernel_arm_boot_step.Kmem.State.{Ptr, null, Mem, Linker, sizeof_chunk}
use osa_kernel_arm_boot_step.Kmem.Chain.{hole_size}
use osa_kernel_arm_boot_step.Kmem.Members.{In, Distinct, In-cons, Absent-of}
use osa_kernel_arm_boot_step.Kmem.Sound.{IsChunk, IsCounted, IsSound}
use osa_kernel_arm_boot_step.Kmem.Own.{IsOwn}
use osa_kernel_arm_boot_step.Kmem.Bounds.{Chain-Distinct, chunk-IsInside}
use osa_kernel_arm_boot_step.Kmem.Layout.{SameLayout, IsLaid-subset, bytes-same}
use osa_kernel_arm_boot_step.Kmem.Malloc.{take_hole}
use osa_kernel_arm_boot_step.Kmem.Malloc.Holes.{first_fit}
use osa_kernel_arm_boot_step.Kmem.Malloc.Unlink.{drop_fit, drop_fit-Absent}
use osa_kernel_arm_boot_step.Kmem.Malloc.Whole.{
  IsSpread, first_fit-found, take_hole-HasLists, take_hole-size,
}
use osa_kernel_arm_boot_step.Kmem.Malloc.Chosen.{Chosen}

-- The chunk `c` with room for `size` bytes is chosen, and the chunks in use keep their sizes.
pub record Picked (l : Linker) (size : ℕ) (m : Mem) (ls hs0 : List Ptr) (c : Ptr) (m' : Mem)
    : Type 0 where
  pub hs : List Ptr
  pub ps : List Ptr
  pub fs : List Ptr
  pub chosen : Chosen l m' c ls hs ps fs
  pub room : size ≤ hole_size m' c
  pub own : IsOwn m ls hs0 size c hs
  pub kept : (d : Ptr) → In d ls → hole_size m' d ≡ hole_size m d

-- The hole that is found is none of the others.
drop_fit-found :
    (size : Ptr → ℕ) (n : ℕ) (p : Ptr) (xs : List Ptr) (q h : Ptr)
    → Distinct xs
    → first_fit size n p xs ≡ some (q, h)
    → Absent h (drop_fit size n xs)
unfolding first_fit drop_fit
drop_fit-found size n p [] q h d e = tt
drop_fit-found size n p (x ∷ xs) q h d e = elim (Bool-cases (leb n (size x))) [
  | inl fits ↦ let same : x ≡ h = ground arith in rw fits (subst (λ a. Absent a xs) same d.0)
  | inr small ↦
      let rest : first_fit size n x xs ≡ some (q, h) = ground arith in
      let found = first_fit-found size n x xs q h rest in
      rw small (
        (λ e. found.1 (subst (λ a. Absent a xs) (sym e) d.0)),
        drop_fit-found size n x xs q h d.1 rest,
      )
]

module _ (l : Linker) (m : Mem) (ls hs ps fs : List Ptr) (s : IsSound l m ls hs ps fs) where
  pub holes-IsSpread : IsSpread m hs
  holes-IsSpread = record {
    apart = λ h x ih ix. (s.laid).apart h x (inr ih) (inr ix);
    inside = λ h k ih lt.
        let i = chunk-IsInside l m ls hs ps fs s.laid h (inr ih) in omega (arith, i.within);
  }

  module _ (size : ℕ) (q h : Ptr)
      (e : first_fit (hole_size m) (size + sizeof_chunk) null hs ≡ some (q, h)) where
    here : In h hs
    here = (first_fit-found (hole_size m) (size + sizeof_chunk) null hs q h e).1

    out : Absent h ls
    out = Absent-of h ls (λ used. here (s.fresh h used))

    take_hole-SameLayout : SameLayout m (take_hole q h m).1
    unfolding take_hole
    take_hole-SameLayout = record {
      size = λ a. ground arith;
      start = λ a. ground arith;
      end = λ a. ground arith;
      offset = λ a. ground arith;
      allocator = λ a. ground arith;
    }

    take_hole-others :
        (c : Ptr)
        → IsChunk (h ∷ ls) (drop_fit (hole_size m) (size + sizeof_chunk) hs) c
        → IsChunk ls hs c
    take_hole-others c (inl i) = elim (In-cons c h ls i) [
      | inl e' ↦ inr (subst (λ a. In a hs) (sym e') here)
      | inr used ↦ inl used
    ]
    take_hole-others c (inr i) =
        inr (λ out'. i (drop_fit-Absent (hole_size m) (size + sizeof_chunk) c hs out'))

    take_hole-IsCounted : IsCounted (take_hole q h m).1 ls ps
    unfolding take_hole
    take_hole-IsCounted =
        let c = s.counted in
        record {
          nchunks = λ p i. ground (arith, c.nchunks p i);
          total = ground (arith, c.total);
          allocated =
              let b =
                bytes-same (hole_size m) (hole_size (take_hole q h m).1) ls
                  (λ x i. (take_hole-SameLayout).size x) in
              ground (arith, c.allocated, b);
        }

    take_hole-first : (((take_hole q h m).1).alloc).first ≡ (m.alloc).first
    unfolding take_hole
    take_hole-first = ground arith

    pub take_hole-Picked : Picked l size m ls hs (take_hole q h m).0 (take_hole q h m).1
    unfolding take_hole
    take_hole-Picked =
        let m' = (take_hole q h m).1 in
        let hs' = drop_fit (hole_size m) (size + sizeof_chunk) hs in
        let d = Chain-Distinct _ _ hs ((s.lists).holes).chain in
        let w = take_hole-HasLists size m hs ps fs s.lists q h e in
        let placed = λ (c : Ptr) (i : IsChunk (h ∷ ls) hs' c).
          ((s.laid).placed c (take_hole-others c i)).page in
        record {
          hs = hs';
          ps = ps;
          fs = fs;
          chosen = record {
            lists = w;
            laid =
                IsLaid-subset l m m' ls (h ∷ ls) hs hs' ps ps fs fs s.laid take_hole-SameLayout
                  take_hole-others (λ p i. i) placed;
            counted = take_hole-IsCounted;
            distinct = (out, s.distinct);
            fresh = λ c i. elim (In-cons c h ls i) [
              | inl e' ↦
                  subst (λ a. Absent a hs') (sym e')
                    (drop_fit-found (hole_size m) (size + sizeof_chunk) null hs q h d e)
              | inr used ↦ drop_fit-Absent (hole_size m) (size + sizeof_chunk) c hs (s.fresh c used)
            ];
            first = subst (λ a. In a ps) (sym take_hole-first) s.first;
            whole = s.whole;
          };
          room = take_hole-size size m hs ps fs s.lists q h e;
          own = record {
            old = λ x i. inr (take_hole-others x i);
            after = λ x i lt.
                let fits = (first_fit-found (hole_size m) (size + sizeof_chunk) null hs q h e).0 in
                omega (arith, fits, (s.laid).apart h x (inr here) (take_hole-others x i) lt);
            before = λ d n i small own lt. own h (inr here) lt;
          };
          kept = λ c i. (take_hole-SameLayout).size c;
        }
