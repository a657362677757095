-- ===== src/Kprintf/Print/Text.antt =====
-- kprintf.c: the text of a format outside of its conversions, and an unknown conversion.
use mathlib.Core.List.{append-nil, append_assoc}
use osa_kernel_arm_boot_step.Prelude.{
  ℕ, zero, suc, ◌+◌, ◌≡◌, ◌≢◌, refl, sym, ap, ◌∙◌, Bool, true, false, not, ◌&&◌, none, some, List,
  [], ◌∷◌, ◌++◌, ◌==◌, if◌then◌else◌, length, length-append, arith, All,
}
use osa_kernel_arm_boot_step.Kprintf.Digits.{Bytes}
use osa_kernel_arm_boot_step.Kprintf.Spec.{
  initial, Args, conversion, unknown, reswitch, is_digit, is_conversion, flag,
}
use osa_kernel_arm_boot_step.Kprintf.Print.{run, printed, kvprintf, kprintf}

-- A character that the outer loop prints as it is.
abbrev pub IsText : (stop : Bool) → ℕ → Type 0
IsText true c = c ≢ 0
IsText false c = (c ≢ 0) × (c ≢ b'%')

pub eq-false : (a b : ℕ) → a ≢ b → (a == b) ≡ false
eq-false a b h = ground arith

pub if-false : {A : Type 0} (b : Bool) (x y : A) → b ≡ false → (if b then x else y) ≡ y
if-false true x y e = cc
if-false false x y e = refl

pub and-false : (b : Bool) → (b && false) ≡ false
and-false true = refl
and-false false = refl

module _ (radix : ℕ) (args : Args) (stores : List (ℕ × ℕ)) where
  pub run-text :
      (stop : Bool) (text rest out : Bytes) (k fuel : ℕ)
      → k ≡ length text + fuel
      → All (IsText stop) text
      → run k radix stop (text ++ rest) args out stores
        ≡ run fuel radix stop rest args (out ++ text) stores
  unfolding run
  run-text stop [] rest out k fuel e h =
      let same : k ≡ fuel = omega arith in rw (same, append-nil out)
  run-text stop (c ∷ text) rest out zero fuel e h = absurd (omega arith)
  run-text true (c ∷ text) rest out (suc k) fuel e (h, hs) =
      if-false (c == 0) _ _ (eq-false c 0 h)
      ∙ if-false ((c == b'%') && false) _ _ (and-false (c == b'%'))
      ∙ run-text true text rest (out ++ c ∷ []) k fuel (omega arith) hs
      ∙ ap (λ o. run fuel radix true rest args o stores) (append_assoc out (c ∷ []) text)
  run-text false (c ∷ text) rest out (suc k) fuel e ((h, p), hs) =
      if-false (c == 0) _ _ (eq-false c 0 h)
      ∙ if-false ((c == b'%') && true) _ _ (ap (λ t. t && true) (eq-false c b'%' p))
      ∙ run-text false text rest (out ++ c ∷ []) k fuel (omega arith) hs
      ∙ ap (λ o. run fuel radix false rest args o stores) (append_assoc out (c ∷ []) text)

-- A format without a NUL and without a percent sign is printed as it is, and nothing is stored.
pub kprintf-text :
    (text : Bytes) (args : Args) → All (IsText false) text → kprintf text args ≡ printed text []
unfolding kprintf kvprintf run
kprintf-text text args h =
    ap (λ t. run (length text + 1) 10 false t args [] []) (sym (append-nil text))
    ∙ run-text 10 args [] false text [] [] (length text + 1) 1 refl h

-- A character behind a percent sign that neither ends a conversion nor is a part of one.
abbrev pub IsUnknown : ℕ → Type 0
IsUnknown k =
    ((k == b'*') ≡ false)
    × (is_digit k ≡ false)
    × (is_conversion k ≡ false)
    × (flag k initial ≡ none)

reswitch-unknown :
    (fuel k : ℕ) (seen rest : Bytes) (args : Args)
    → IsUnknown k
    → reswitch (suc fuel) initial seen (k ∷ rest) args ≡ unknown (seen ++ k ∷ []) rest
unfolding reswitch
reswitch-unknown fuel k seen rest args (st, di, co, fl) =
    let number_case : (is_digit k && not ((k == b'0') && true)) ≡ false =
      ap (λ t. t && not ((k == b'0') && true)) di in
    if-false (k == b'*') _ _ st
    ∙ if-false (is_digit k && not ((k == b'0') && true)) _ _ number_case
    ∙ ap
        (λ o. elim o [
          | none ↦
              if is_conversion k
              then conversion k initial rest args
              else unknown (seen ++ k ∷ []) rest
          | some t ↦ reswitch fuel t (seen ++ k ∷ []) rest args
        ])
        fl
    ∙ if-false (is_conversion k) _ _ co

run-unknown :
    (radix : ℕ) (args : Args) (out : Bytes) (k : ℕ) (rest : Bytes)
    → IsUnknown k
    → All (IsText true) rest
    → run (suc (suc (suc (length rest)))) radix false (b'%' ∷ k ∷ rest) args out []
      ≡ printed (out ++ b'%' ∷ k ∷ rest) []
unfolding run
run-unknown radix args out k rest hk hr =
    rw (reswitch-unknown (suc (length rest)) k (b'%' ∷ []) rest args hk) (
      ap (λ t. run (suc (suc (length rest))) radix true t args (out ++ b'%' ∷ k ∷ []) [])
        (sym (append-nil rest))
      ∙ run-text radix args [] true rest [] (out ++ b'%' ∷ k ∷ []) (suc (suc (length rest))) 2
          (omega arith) hr
      ∙ ap (λ o. printed o []) (append_assoc out (b'%' ∷ k ∷ []) rest))

-- Behind the first percent sign with such a character, the whole rest of the format is printed as
-- it is, the percent sign and further ones included.
pub kprintf-unknown :
    (text : Bytes) (k : ℕ) (rest : Bytes) (args : Args)
    → All (IsText false) text
    → IsUnknown k
    → All (IsText true) rest
    → kprintf (text ++ b'%' ∷ k ∷ rest) args ≡ printed (text ++ b'%' ∷ k ∷ rest) []
unfolding kprintf kvprintf
kprintf-unknown text k rest args ht hk hr =
    run-text 10 args [] false text (b'%' ∷ k ∷ rest) [] _ (suc (suc (suc (length rest))))
      (rw (length-append text (b'%' ∷ k ∷ rest)) (omega arith)) ht
    ∙ run-unknown 10 args text k rest hk hr
