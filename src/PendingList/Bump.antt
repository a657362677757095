-- ===== src/PendingList/Bump.antt =====
-- An allocator that hands out the addresses in turn, and none twice.
use osa_kernel_arm_boot_step.Prelude.{
  ℕ, zero, suc, ◌+◌, ◌≤◌, ◌<◌, ◌≡◌, [], refl, sym, ap, Bool, true, false, Option, none, some, ltb,
  ◌==◌, if◌then◌else◌, update, arith, Bool-cases, inl, inr,
}
use native.Mathlib.Numerals.{add-one}
use osa_kernel_arm_boot_step.Kmem.State.{Ptr}
use osa_kernel_arm_boot_step.PendingList.{Allocator}

-- The last address that was given, and which are in use.
abbrev pub Bumped : Type 0
Bumped = ℕ × (Ptr → Bool)

abbrev pub bump_kmalloc : ℕ → Bumped → Option (Ptr × Bumped)
bump_kmalloc n (last, used) = some (last + 1, (last + 1, update used (last + 1) true))

abbrev pub bump_kfree : Ptr → Bumped → Bumped
bump_kfree p (last, used) = (last, update used p false)

abbrev pub bump_live : Bumped → Ptr → Bool
bump_live (last, used) p = if ltb last p then false else used p

-- How many of the addresses up to `n` are in use.
abbrev pub count : ℕ → (Ptr → Bool) → ℕ
count zero f = if f 0 then 1 else 0
count (suc n) f = let rest = count n f in if f (suc n) then rest + 1 else rest

count-above : (n p : ℕ) (f : Ptr → Bool) (b : Bool) → n < p → count n (update f p b) ≡ count n f
count-above zero p f b lt = ground arith
count-above (suc n) p f b lt = ground (arith, count-above n p f b)

count-cleared :
    (n p : ℕ) (f : Ptr → Bool) → p ≤ n → f p ≡ true → count n f ≡ count n (update f p false) + 1
count-cleared zero p f le on =
    let z : p ≡ 0 = omega arith in
    let at_zero : f 0 ≡ true = rw z at on in ground (arith, at_zero, z)
count-cleared (suc n) p f le on = elim (Bool-cases (p == suc n)) [
  | inl e ↦
      let last : p ≡ suc n = ground arith in
      let same = count-above n p f false (omega (arith, last)) in
      let on' : f (suc n) ≡ true = rw last at on in ground (arith, same, on')
  | inr ne ↦ let rest = count-cleared n p f (ground (arith, le)) on in ground (arith, rest, ne)
]

abbrev pub bump_used : Bumped → ℕ
bump_used (last, used) = count last used

pub bump_kmalloc-used :
    (n : ℕ) (s : Bumped) (p : Ptr) (t : Bumped)
    → bump_kmalloc n s ≡ some (p, t)
    → bump_used t ≤ bump_used s + 1
bump_kmalloc-used n (last, f) p t e =
    let to : Option (Ptr × Bumped) → ℕ = λ o. elim o [ none ↦ 0 | some r ↦ bump_used (r.1) ] in
    let same : bump_used (last + 1, update f (last + 1) true) ≡ bump_used t = ap to e in
    omega (arith, sym same, one_more last f)
  where
    one_more : (n : ℕ) (f : Ptr → Bool) → count (n + 1) (update f (n + 1) true) ≤ count n f + 1
    one_more n f =
        let rest = count-above n (suc n) f true (omega arith) in rw add-one (ground (arith, rest))

pub bump_kfree-used :
    (p : Ptr) (s : Bumped) → bump_live s p ≡ true → bump_used (bump_kfree p s) + 1 ≤ bump_used s
bump_kfree-used p (last, f) on =
    let le : p ≤ last = ground arith in
    let here : f p ≡ true = ground arith in omega (arith, count-cleared last p f le here)

abbrev pub bump : Allocator
bump = record {
  Store = Bumped;
  kmalloc = bump_kmalloc;
  kfree = bump_kfree;
  message = λ n s. [];
  live = bump_live;
  kmalloc-ne-null = λ n s p t e. ground arith;
  kmalloc_fresh = λ n s p t e. ground arith;
  kmalloc-live = λ n s p t q e. ground arith;
  kfree-live = λ p s q. ground arith;
  used = bump_used;
  limit = 100;
  kmalloc-used = bump_kmalloc-used;
  kfree-used = bump_kfree-used;
  kmalloc_succeeds = λ s few. (s.0 + 1, (s.0 + 1, update s.1 (s.0 + 1) true), refl);
}
