-- ===== src/PendingList/Data.antt =====
-- kmem.c: a chunk in use by the address of its data.
use mathlib.Core.Path.{subst}
use osa_kernel_arm_boot_step.Prelude.{
  ◌-◌, ◌≡◌, sym, ap, ◌∙◌, Bool, true, false, List, [], ◌∷◌, ◌==◌, if◌then◌else◌, Absent, Bool-cases,
  inl, inr, arith, refl,
}
use osa_kernel_arm_boot_step.Kmem.State.{Ptr, chunk_data}
use osa_kernel_arm_boot_step.Kmem.Members.{In, Distinct, remove, remove-Absent}

-- The chunk with the data at `p` is one of the chunks.
abbrev pub has_data : Ptr → List Ptr → Bool
has_data p [] = false
has_data p (c ∷ ls) = if chunk_data c == p then true else has_data p ls

pub has_data-In :
    (p : Ptr) (ls : List Ptr) → has_data p ls ≡ true → In (p - 8) ls × (p ≡ chunk_data (p - 8))
has_data-In p [] e = absurd (cc)
has_data-In p (c ∷ ls) e = elim (Bool-cases (chunk_data c == p)) [
  | inl same ↦
      let at : chunk_data c ≡ p = ground arith in
      let back : p - 8 ≡ c = omega (arith, at) in ((λ out. out.0 back), omega (arith, at))
  | inr other ↦
      let rest : has_data p ls ≡ true = rw other at e in
      let r = has_data-In p ls rest in ((λ out. r.0 out.1), r.1)
]

pub has_data-Absent : (c : Ptr) (ls : List Ptr) → Absent c ls → has_data (chunk_data c) ls ≡ false
has_data-Absent c [] out = refl
has_data-Absent c (x ∷ ls) out = ground (arith, out.0, has_data-Absent c ls out.1)

pub has_data-remove :
    (c q : Ptr) (ls : List Ptr)
    → Distinct ls
    → In c ls
    → has_data q (remove c ls) ≡ (if chunk_data c == q then false else has_data q ls)
has_data-remove c q [] d here = absurd (here tt)
has_data-remove c q (x ∷ ls) d here = elim (Bool-cases (x == c)) [
  | inl e ↦
      let xc : x ≡ c = ground arith in
      let out : Absent c ls = subst (λ a. Absent a ls) xc d.0 in
      elim (Bool-cases (chunk_data c == q)) [
        | inl same ↦
            let at : chunk_data c ≡ q = ground arith in
            rw (e, remove-Absent c ls out, same)
              (ap (λ a. has_data a ls) (sym at) ∙ has_data-Absent c ls out)
        | inr other ↦
            let other' : (chunk_data x == q) ≡ false = rw xc other in
            rw (e, remove-Absent c ls out, other, other') refl
      ]
  | inr ne ↦
      let rest = has_data-remove c q ls d.1 (λ out. here (ground arith, out)) in
      rw ne (ground (arith, rest))
]
