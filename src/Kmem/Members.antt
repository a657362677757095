-- ===== src/Kmem/Members.antt =====
-- Lists of distinct addresses and their members, for the chunks and pages of kmem.c.
use osa_kernel_arm_boot_step.Prelude.{
  ℕ, zero, suc, ◌+◌, ◌≤◌, ◌<◌, ◌≡◌, ◌≢◌, ◌⊎◌, refl, sym, List, [], ◌∷◌, Bool, true, false, arith,
  ◌==◌, not, Bool-cases, inl, inr, length, keep, Absent, All,
}
use osa_kernel_arm_boot_step.Kmem.State.{Ptr}

abbrev pub In : Ptr → List Ptr → Type 0
In a xs = ¬ Absent a xs

abbrev pub Distinct : List Ptr → Type 0
Distinct [] = Unit {0}
Distinct (x ∷ xs) = Absent x xs × Distinct xs

pub In-cons : (a x : Ptr) (xs : List Ptr) → In a (x ∷ xs) → (a ≡ x) ⊎ In a xs
In-cons a x xs here = elim (Bool-cases (a == x)) [
  | inl e ↦ inl (ground arith)
  | inr ne ↦ let ax : a ≢ x = ground arith in inr (λ out. here (ax, out))
]

pub Absent-of : (a : Ptr) (xs : List Ptr) → ¬ In a xs → Absent a xs
Absent-of a [] h = tt
Absent-of a (x ∷ xs) h = ((λ e. h (λ out. out.0 e)), Absent-of a xs (λ here. h (λ out. here out.1)))

pub In-keep : (f : Ptr → Bool) (a : Ptr) (xs : List Ptr) → In a (keep f xs) → (f a ≡ true) × In a xs
In-keep f a [] here = absurd (here tt)
In-keep f a (x ∷ xs) here = elim (Bool-cases (f x)) [
  | inl on ↦ elim (In-cons a x (keep f xs) (rw on at here)) [
    | inl e ↦ (rw e on, λ out. out.0 e)
    | inr there ↦ let r = In-keep f a xs there in (r.0, λ out. r.1 out.1)
  ]
  | inr off ↦ let r = In-keep f a xs (rw off at here) in (r.0, λ out. r.1 out.1)
]

pub In-of_keep :
    (f : Ptr → Bool) (a : Ptr) (xs : List Ptr) → f a ≡ true → In a xs → In a (keep f xs)
In-of_keep f a [] on here = here
In-of_keep f a (x ∷ xs) on here = elim (In-cons a x xs here) [
  | inl e ↦ let fx : f x ≡ true = rw (sym e) on in rw fx (λ out. out.0 e)
  | inr there ↦ elim (Bool-cases (f x)) [
    | inl here' ↦ rw here' (λ out. In-of_keep f a xs on there out.1)
    | inr gone ↦ rw gone (In-of_keep f a xs on there)
  ]
]

pub Absent-of_keep : (f : Ptr → Bool) (a : Ptr) (xs : List Ptr) → Absent a xs → Absent a (keep f xs)
Absent-of_keep f a xs out = Absent-of a (keep f xs) (λ here. (In-keep f a xs here).1 out)

pub keep-Distinct : (f : Ptr → Bool) (xs : List Ptr) → Distinct xs → Distinct (keep f xs)
keep-Distinct f [] d = tt
keep-Distinct f (x ∷ xs) d = elim (Bool-cases (f x)) [
  | inl on ↦ rw on (Absent-of_keep f x xs d.0, keep-Distinct f xs d.1)
  | inr off ↦ rw off (keep-Distinct f xs d.1)
]

-- The list without the address `a`.
abbrev pub remove : Ptr → List Ptr → List Ptr
remove a = keep (λ x. not (x == a))

pub remove-Absent : (a : Ptr) (xs : List Ptr) → Absent a xs → remove a xs ≡ xs
remove-Absent a [] out = refl
remove-Absent a (x ∷ xs) out =
    let ne : (x == a) ≡ false = ground arith in rw (ne, remove-Absent a xs out.1) refl

-- Less the address, a distinct list is one shorter at most.
pub length-remove : (a : Ptr) (xs : List Ptr) → Distinct xs → length xs ≤ suc (length (remove a xs))
length-remove a [] d = omega arith
length-remove a (x ∷ xs) d = elim (Bool-cases (x == a)) [
  | inl e ↦
      let ax : a ≡ x = ground arith in
      let out : Absent a xs = rw ax d.0 in rw (e, remove-Absent a xs out) (omega arith)
  | inr ne ↦ rw ne (omega (arith, length-remove a xs d.1))
]

-- There are no more distinct addresses in a range than the range is long.
pub length-range :
    (b n : ℕ) (xs : List Ptr)
    → Distinct xs
    → ((x : Ptr) → In x xs → (b ≤ x) × (x < b + n))
    → length xs ≤ n
length-range b zero [] d h = omega arith
length-range b zero (x ∷ xs) d h =
    let r = h x (λ out. out.0 refl) in absurd (omega (arith, r.0, r.1))
length-range b (suc n) xs d h =
    let f = λ (x : Ptr). not (x == b + n) in
    let rest : length (remove (b + n) xs) ≤ n =
      length-range b n (remove (b + n) xs) (keep-Distinct f xs d) (λ x here.
        let i = In-keep f x xs here in
        let r = h x i.1 in
        let ne : x ≢ b + n = ground (arith, i.0) in (r.0, omega (arith, r.1, ne))) in
    omega (arith, length-remove (b + n) xs d)

pub Absent-or_In : (a : Ptr) (xs : List Ptr) → Absent a xs ⊎ In a xs
Absent-or_In a [] = inl tt
Absent-or_In a (x ∷ xs) = elim (Bool-cases (a == x)) [
  | inl e ↦ inr (λ out. out.0 (ground arith))
  | inr ne ↦ elim (Absent-or_In a xs) [
    | inl out ↦ let ax : a ≢ x = ground arith in inl (ax, out)
    | inr here ↦ inr (λ out. here out.1)
  ]
]

pub All-found : (P : Ptr → Type 0) (a : Ptr) (xs : List Ptr) → All P xs → In a xs → P a
All-found P a [] all here = absurd (here tt)
All-found P a (x ∷ xs) all here = elim (In-cons a x xs here) [
  | inl e ↦ rw e all.0
  | inr there ↦ All-found P a xs all.1 there
]

pub keep-none :
    (f : Ptr → Bool) (xs : List Ptr) → ((x : Ptr) → In x xs → f x ≡ false) → keep f xs ≡ []
keep-none f [] none_of = refl
keep-none f (x ∷ xs) none_of =
    let fx : f x ≡ false = none_of x (λ out. out.0 refl) in
    rw fx (keep-none f xs (λ a here. none_of a (λ out. here out.1)))

pub length-pos : (a : Ptr) (xs : List Ptr) → In a xs → 0 < length xs
length-pos a [] here = absurd (here tt)
length-pos a (x ∷ xs) here = omega arith
