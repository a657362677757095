-- ===== src/Kmem/Chain.antt =====
-- Null-terminated lists of distinct addresses, as the `next` pointers of kmem.c lead through them.
use osa_kernel_arm_boot_step.Prelude.{
  length, ◌<◌, ◌^◌, ℕ, ◌≡◌, ◌≢◌, sym, List, [], ◌∷◌, All, Absent, Bool, keep, arith,
}
use osa_kernel_arm_boot_step.Kmem.State.{Ptr, null, Mem}

abbrev pub Chain : (Ptr → Ptr) → Ptr → List Ptr → Type 0
Chain next p [] = p ≡ null
Chain next p (x ∷ xs) = (p ≡ x) × (x ≢ null) × Absent x xs × Chain next (next x) xs

-- The two `next` fields.
abbrev pub hole_next : Mem → Ptr → Ptr
hole_next m p = (m.chunk p).next

abbrev pub hole_size : Mem → Ptr → ℕ
hole_size m p = (m.chunk p).size

abbrev pub page_next : Mem → Ptr → Ptr
page_next m p = (m.page p).next

-- A chain survives a change of pointers outside it.
pub Chain-frame :
    (f g : Ptr → Ptr) (p : Ptr) (xs : List Ptr)
    → Chain f p xs
    → All (λ x. g x ≡ f x) xs
    → Chain g p xs
Chain-frame f g p [] c same = c
Chain-frame f g p (x ∷ xs) c same =
    (c.0, c.1, c.2, rw (same.0) (Chain-frame f g (f x) xs c.3 same.1))

-- A property of two addresses' absence, item by item.
pub All-of_Absent₂ :
    (P : Ptr → Type 0) (a b : Ptr) (xs : List Ptr)
    → Absent a xs
    → Absent b xs
    → ((x : Ptr) → a ≢ x → b ≢ x → P x)
    → All P xs
All-of_Absent₂ P a b [] out out' h = tt
All-of_Absent₂ P a b (x ∷ xs) out out' h =
    (h x out.0 out'.0, All-of_Absent₂ P a b xs out.1 out'.1 h)

-- A property of every address but one holds on a list without that address.
pub All-of_Absent :
    (P : Ptr → Type 0) (a : Ptr) (xs : List Ptr)
    → Absent a xs
    → ((x : Ptr) → a ≢ x → P x)
    → All P xs
All-of_Absent P a [] out h = tt
All-of_Absent P a (x ∷ xs) out h = (h x out.0, All-of_Absent P a xs out.1 h)

pub Absent-keep : (p : Ptr → Bool) (a : Ptr) (xs : List Ptr) → Absent a xs → Absent a (keep p xs)
Absent-keep p a [] out = tt
Absent-keep p a (x ∷ xs) out = ground (arith, Absent-keep p a xs out.1)

pub null-Absent : (f : Ptr → Ptr) (p : Ptr) (xs : List Ptr) → Chain f p xs → Absent null xs
null-Absent f p [] c = tt
null-Absent f p (x ∷ xs) c = (λ e. c.1 (sym e), null-Absent f (f x) xs c.3)

-- The chain of holes with the addresses `xs`, and its length as the allocator counts it.
pub record HasHoles (m : Mem) (xs : List Ptr) : Type 0 where
  pub chain : Chain (hole_next m) (m.alloc).holes xs
  pub count : (m.alloc).nholes ≡ length xs
  pub fits : length xs < 2 ^ 32
