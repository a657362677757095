-- ===== src/Kprintf/Print/Conversions.antt =====
-- kprintf.c: a conversion with no flag, width or precision, between two texts.
use mathlib.Core.List.{append-nil, append_assoc}
use osa_kernel_arm_boot_step.Prelude.{
  ℕ, suc, ◌+◌, ◌≡◌, refl, sym, ap, ◌∙◌, Bool, true, false, not, ◌&&◌, none, some, [], ◌∷◌, ◌++◌,
  ◌==◌, if◌then◌else◌, length, length-append, arith, All,
}
use osa_kernel_arm_boot_step.Kprintf.Digits.{Bytes}
use osa_kernel_arm_boot_step.Kprintf.Spec.{
  initial, Args, conversion, unknown, reswitch, is_digit, is_conversion, flag,
}
use osa_kernel_arm_boot_step.Kprintf.Print.{run, printed, kvprintf, kprintf, convert}
use osa_kernel_arm_boot_step.Kprintf.Print.Text.{IsText, if-false, run-text}

-- A character that ends a conversion right behind the percent sign.
abbrev pub IsConversion : ℕ → Type 0
IsConversion k =
    ((k == b'*') ≡ false)
    × (is_digit k ≡ false)
    × (is_conversion k ≡ true)
    × (flag k initial ≡ none)

if-true : {A : Type 0} (b : Bool) (x y : A) → b ≡ true → (if b then x else y) ≡ x
if-true true x y e = refl
if-true false x y e = cc

reswitch-conversion :
    (fuel k : ℕ) (seen rest : Bytes) (args : Args)
    → IsConversion k
    → reswitch (suc fuel) initial seen (k ∷ rest) args ≡ conversion k initial rest args
unfolding reswitch
reswitch-conversion fuel k seen rest args (st, di, co, fl) =
    let number_case : (is_digit k && not ((k == b'0') && true)) ≡ false =
      ap (λ t. t && not ((k == b'0') && true)) di in
    if-false (k == b'*') _ _ st
    ∙ if-false (is_digit k && not ((k == b'0') && true)) _ _ number_case
    ∙ ap
        (λ o. elim o [
          | none ↦
              if is_conversion k
              then conversion k initial rest args
              else unknown (seen ++ k ∷ []) rest
          | some t ↦ reswitch fuel t (seen ++ k ∷ []) rest args
        ])
        fl
    ∙ if-true (is_conversion k) _ _ co

pub run-conversion :
    (radix f : ℕ) (out : Bytes) (k : ℕ) (after t : Bytes) (args left : Args)
    → IsConversion k
    → convert radix (length out) k initial args ≡ some (t, [], left)
    → run (suc (suc f)) radix false (b'%' ∷ k ∷ after) args out []
      ≡ run (suc f) radix false after left (out ++ t) []
unfolding run
run-conversion radix f out k after t args left hk e =
    rw (reswitch-conversion f k (b'%' ∷ []) after args hk, e) refl

-- The text of a format with one conversion, whose effect is known.
pub kprintf-conversion :
    (before : Bytes) (k : ℕ) (after t : Bytes) (args left : Args)
    → All (IsText false) before
    → IsConversion k
    → All (IsText false) after
    → convert 10 (length before) k initial args ≡ some (t, [], left)
    → kprintf (before ++ b'%' ∷ k ∷ after) args ≡ printed (before ++ (t ++ after)) []
unfolding kprintf kvprintf
kprintf-conversion before k after t args left hb hk ha e =
    run-text 10 args [] false before (b'%' ∷ k ∷ after) [] _ (suc (suc (suc (length after))))
      (rw (length-append before (b'%' ∷ k ∷ after)) (omega arith)) hb
    ∙ run-conversion 10 (suc (length after)) before k after t args left hk e
    ∙ ap (λ u. run (suc (suc (length after))) 10 false u left (before ++ t) [])
        (sym (append-nil after))
    ∙ run-text 10 left [] false after [] (before ++ t) (suc (suc (length after))) 2 (omega arith) ha
    ∙ ap (λ o. printed o []) (append_assoc before t after)

-- A text without NUL and percent sign is printed as it is.
pub kprintf-plain : (s : Bytes) (args : Args) → All (IsText false) s → kprintf s args ≡ printed s []
unfolding kprintf kvprintf run
kprintf-plain s args all =
    ap (λ u. run (length s + 1) 10 false u args [] []) (sym (append-nil s))
    ∙ run-text 10 args [] false s [] [] (length s + 1) 1 (omega arith) all
