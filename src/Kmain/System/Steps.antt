-- ===== src/Kmain/System/Steps.antt =====
-- Every sequence of interrupts and rounds of the main loop.
use osa_kernel_arm_boot_step.Prelude.{◌≤◌, ◌≡◌, sym, ap, ◌∙◌, List, [], arith}
use mathlib.Core.Path.{subst}
use osa_kernel_arm_boot_step.PendingList
use osa_kernel_arm_boot_step.PendingList.{Allocator, Entry, Result, halted, ok, max_nbr_pending_irq}
use osa_kernel_arm_boot_step.PendingList.Queue.{Represents, Represents-length}
use osa_kernel_arm_boot_step.Kmain.{Board, Kernel, irq_handler}
use osa_kernel_arm_boot_step.Kmain.System.{
  Environment, Step, interrupt, main_round, Reach, here, next,
}
use osa_kernel_arm_boot_step.Kmain.System.Served.{
  Served, start-Served, main_round-Served, interrupt-Served,
}

-- The value of a run is the one that it is known to have.
same_result :
    (b : Board) (a : Allocator) (k0 k l : Kernel b a)
    → ok k ≡ ok l
    → Served b a k0 k
    → Served b a k0 l
same_result b a k0 k l e v =
    let value : Result (Kernel b a) → Kernel b a =
      λ r. elim r [ ok x ↦ x | halted reason ↦ k | PendingList.out_of_fuel ↦ k ] in
    subst (Served b a k0) (ap value e) v

module _ (b : Board) (a : Allocator) (env : Environment b a) (k0 : Kernel b a) where
  Step-Served : (k l : Kernel b a) → Step b a k l → Served b a k0 k → Served b a k0 l
  Step-Served k l (interrupt runs) v =
      let (k', other, w) = interrupt-Served b a env k0 k v in
      same_result b a k0 k' l (sym other ∙ runs) w
  Step-Served k l (main_round runs) v =
      let (k', w, other, empty) = main_round-Served b a env k0 k v in
      same_result b a k0 k' l (sym other ∙ runs) w

  pub Reach-Served :
      (k : Kernel b a) → Represents a k0.pending k0.store [] → Reach b a k0 k → Served b a k0 k
  Reach-Served k start here = start-Served b a env k0 start
  Reach-Served k start (next {l} r s) = Step-Served l k s (Reach-Served l start r)

  -- In an `Environment`, if the kernel starts with no pending interrupt and memory for three
  -- nodes, at most three are pending after any steps.
  pub Reach-le-max :
      (k : Kernel b a)
      → Represents a k0.pending k0.store []
      → Reach b a k0 k
      → k.pending.nb_pending_irq_request ≤ max_nbr_pending_irq
  Reach-le-max k start r =
      let v = Reach-Served k start r in
      omega (arith, Represents-length a k.pending k.store v.es v.queue, v.few)

  -- In an `Environment`, if the kernel starts with no pending interrupt and memory for three
  -- nodes, after any steps an interrupt is handled to the end, with a byte in the receive FIFO or
  -- without: the handler neither halts, as it does when the list overflows, nor waits for ever.
  pub irq_handler-ends :
      (k : Kernel b a)
      → Represents a k0.pending k0.store []
      → Reach b a k0 k
      → (l : Kernel b a) × (irq_handler b a k ≡ ok l)
  irq_handler-ends k start r =
      let (l, runs, v) = interrupt-Served b a env k0 k (Reach-Served k start r) in (l, runs)
