-- ===== src/PendingList/Nodes.antt =====
-- The walk of `getAndRemovePendingIrq` to the last node, and the chain without that node.
use mathlib.Core.List.{reverse, reverse_aux, map}
use osa_kernel_arm_boot_step.Prelude.{
  ℕ, zero, suc, ◌+◌, ◌<◌, ◌≡◌, ◌≢◌, refl, sym, ◌∙◌, Bool, true, false, some, List, [], ◌∷◌, ◌++◌,
  ◌==◌, update, length, All, Absent, arith,
}
use osa_kernel_arm_boot_step.Kmem.State.{Ptr, null}
use osa_kernel_arm_boot_step.Kmem.Chain.{Chain}
use osa_kernel_arm_boot_step.PendingList.{Entry, Pending, walk}

abbrev pub node_next : Pending → Ptr → Ptr
node_next q p = (q.node p).next

abbrev pub node_entry : Pending → Ptr → Entry
node_entry q p = (q.node p).entry

-- The last item of `x ∷ xs` and the one before it, and the items but the last.
unfoldable pub last_two : Ptr → Ptr → List Ptr → Ptr × Ptr
last_two prev x [] = (prev, x)
last_two prev x (y ∷ ys) = last_two x y ys

unfoldable pub but_last : Ptr → List Ptr → List Ptr
but_last x [] = []
but_last x (y ∷ ys) = x ∷ but_last y ys

module _ (q : Pending) where
  pub walk-last_two :
      (fuel : ℕ) (prev x : Ptr) (xs : List Ptr)
      → Chain (node_next q) x (x ∷ xs)
      → length xs < fuel
      → walk fuel prev x q ≡ some (last_two prev x xs)
  unfolding walk last_two
  walk-last_two zero prev x xs c f = absurd (omega arith)
  walk-last_two (suc fuel) prev x [] c f = ground arith
  walk-last_two (suc fuel) prev x (y ∷ ys) c f =
      let at : node_next q x ≡ y = (c.3).0 in
      let more : (node_next q x == null) ≡ false = ground arith in
      rw (more, at) (walk-last_two fuel x y ys (refl, (c.3).1, (c.3).2, (c.3).3) (omega arith))

pub last_two-Absent :
    (a p x : Ptr) (xs : List Ptr)
    → a ≢ p
    → Absent a (x ∷ xs)
    → (a ≢ (last_two p x xs).0) × (a ≢ (last_two p x xs).1)
unfolding last_two
last_two-Absent a p x [] np out = (np, out.0)
last_two-Absent a p x (y ∷ ys) np out = last_two-Absent a x y ys out.0 out.1

pub but_last-Absent : (a x : Ptr) (xs : List Ptr) → Absent a (x ∷ xs) → Absent a (but_last x xs)
unfolding but_last
but_last-Absent a x [] out = tt
but_last-Absent a x (y ∷ ys) out = (out.0, but_last-Absent a y ys out.1)

-- Clearing the link to the last node leaves a chain of the others.
pub but_last-Chain :
    (f : Ptr → Ptr) (p x y : Ptr) (ys : List Ptr)
    → Chain f x (x ∷ y ∷ ys)
    → Chain (update f (last_two p x (y ∷ ys)).0 null) x (but_last x (y ∷ ys))
unfolding last_two but_last
but_last-Chain f p x y [] c = (refl, c.1, tt, ground arith)
but_last-Chain f p x y (z ∷ zs) c =
    let out = c.2 in
    let far = last_two-Absent x y z zs out.0 out.1 in
    let step : update f (last_two y z zs).0 null x ≡ y = ground (arith, (c.3).0) in
    let rest = (c.3).3 in
    let tail = but_last-Chain f x y z zs (refl, (c.3).1, (c.3).2, rest) in
    (refl, c.1, (out.0, but_last-Absent x z zs out.1), rw step tail)

pub map-but_last :
    {A : Type 0} (g : Ptr → A) (p x : Ptr) (xs : List Ptr)
    → map g (x ∷ xs) ≡ map g (but_last x xs) ++ g (last_two p x xs).1 ∷ []
unfolding last_two but_last
map-but_last g p x [] = refl
map-but_last g p x (y ∷ ys) = rw (map-but_last g x y ys)

pub length-but_last : (x : Ptr) (xs : List Ptr) → length (but_last x xs) ≡ length xs
unfolding but_last
length-but_last x [] = refl
length-but_last x (y ∷ ys) = omega (arith, length-but_last y ys)

pub map-congr :
    {A : Type 0} (f g : Ptr → A) (xs : List Ptr) → All (λ x. f x ≡ g x) xs → map f xs ≡ map g xs
map-congr f g [] h = refl
map-congr f g (x ∷ xs) h = rw (h.0, map-congr f g xs h.1)

pub Absent-of_All :
    (p : Ptr → Bool) (a : Ptr) (xs : List Ptr)
    → p a ≡ false
    → All (λ x. p x ≡ true) xs
    → Absent a xs
Absent-of_All p a [] h all = tt
Absent-of_All p a (x ∷ xs) h all = (ground (arith, all.0), Absent-of_All p a xs h all.1)

pub All-at :
    (p r : Ptr → Bool) (xs : List Ptr) (a : Ptr)
    → Absent a xs
    → ((x : Ptr) → a ≢ x → r x ≡ p x)
    → All (λ x. p x ≡ true) xs
    → All (λ x. r x ≡ true) xs
All-at p r [] a out same all = tt
All-at p r (x ∷ xs) a out same all = (same x out.0 ∙ all.0, All-at p r xs a out.1 same all.1)

pub All-but_last :
    (P : Ptr → Type 0) (p x : Ptr) (xs : List Ptr) → All P (x ∷ xs) → All P (but_last x xs)
unfolding but_last
All-but_last P p x [] all = tt
All-but_last P p x (y ∷ ys) all = (all.0, All-but_last P x y ys all.1)

-- The last item has what every item has.
pub last_two-All :
    (P : Ptr → Type 0) (p x : Ptr) (xs : List Ptr) → All P (x ∷ xs) → P (last_two p x xs).1
unfolding last_two
last_two-All P p x [] all = all.0
last_two-All P p x (y ∷ ys) all = last_two-All P x y ys all.1

pub last-Absent : (a p x : Ptr) (xs : List Ptr) → Absent a (x ∷ xs) → a ≢ (last_two p x xs).1
unfolding last_two
last-Absent a p x [] out = out.0
last-Absent a p x (y ∷ ys) out = last-Absent a x y ys out.1

-- The last node is not among the others.
pub last-not-but_last :
    (f : Ptr → Ptr) (p x : Ptr) (xs : List Ptr)
    → Chain f x (x ∷ xs)
    → Absent (last_two p x xs).1 (but_last x xs)
unfolding last_two but_last
last-not-but_last f p x [] c = tt
last-not-but_last f p x (y ∷ ys) c = (
  λ e. last-Absent x x y ys c.2 (sym e),
  last-not-but_last f x y ys (refl, (c.3).1, (c.3).2, (c.3).3),
)

length-reverse_aux :
    {A : Type 0} (xs ys : List A) → length (reverse_aux xs ys) ≡ length xs + length ys
length-reverse_aux [] ys = omega arith
length-reverse_aux (x ∷ xs) ys = omega (arith, length-reverse_aux xs (x ∷ ys))

pub length-reverse-map :
    {A : Type 0} (g : Ptr → A) (xs : List Ptr) → length (reverse (map g xs)) ≡ length xs
length-reverse-map g xs = omega (arith, length-reverse_aux (map g xs) [], go xs)
  where
    go : (ys : List Ptr) → length (map g ys) ≡ length ys
    go [] = refl
    go (y ∷ ys) = omega (arith, go ys)
