-- ===== src/PendingList/Race.antt =====
-- kirqPendingList.c: `getAndRemovePendingIrq` in the main loop, where interrupts are enabled. An
-- interrupt between the loop and what follows it runs `addPendingIrq`.
use osa_kernel_arm_boot_step.Prelude.{
  suc, ◌<◌, ◌≡◌, refl, sym, ap, ◌∙◌, true, false, Option, none, some, List, [], ◌∷◌, ◌++◌, ◌==◌,
  if◌then◌else◌, length, Absent, arith,
}
use mathlib.Core.List.{map, reverse}
use osa_kernel_arm_boot_step.Kmem.State.{Ptr, null}
use osa_kernel_arm_boot_step.Kmem.Chain.{Chain}
use osa_kernel_arm_boot_step.PendingList.{
  Allocator, Entry, Pending, Result, ok, halted, out_of_fuel, max_nbr_pending_irq, sizeof_node,
  walk, cut_last, add_pending_irq, get_and_remove_pending_irq,
}
use osa_kernel_arm_boot_step.PendingList.Nodes.{last_two, walk-last_two, node_next, node_entry}
use osa_kernel_arm_boot_step.PendingList.Queue.{
  Represents, Represents-length, linked, linked-Chain, linked-nodes, linked-Represents,
  add_pending_irq-linked,
}
use osa_kernel_arm_boot_step.PendingList.Removal.{
  get_and_remove-cut_last, get_and_remove_pending_irq-cons,
}

module _ (a : Allocator) where
  open a use {Store, kmalloc, kfree, live}

  -- The removal with an interrupt that adds `e` behind the loop.
  pub interrupted_removal : Entry → Pending → Store → Result (Option Entry × Pending × Store)
  interrupted_removal e q s =
      if q.nb_pending_irq_request == 0
      then ok (none, q, s)
      else elim (walk q.nb_pending_irq_request null q.irq_pending_list q) [
        | none ↦ out_of_fuel
        | some (prev, tmp) ↦ elim (add_pending_irq a e q s) [
          | ok (q1, s1) ↦ ok (some (q1.node tmp).entry, cut_last prev q1, kfree tmp s1)
          | halted reason ↦ halted reason
          | out_of_fuel ↦ out_of_fuel
        ]
      ]

  module _ (q : Pending) (s t : Store) (e : Entry) (p : Ptr) (es : List Entry)
      (r : Represents a q s es) where
    interrupted_removal-cut_last :
        (x : Ptr) (xs : List Ptr)
        → r.nodes ≡ x ∷ xs
        → length es < max_nbr_pending_irq
        → kmalloc sizeof_node s ≡ some (p, t)
        → interrupted_removal e q s
          ≡ ok (
            some (node_entry (linked a q s t e es p r) (last_two null x xs).1),
            cut_last (last_two null x xs).0 (linked a q s t e es p r),
            kfree (last_two null x xs).1 t,
          )
    unfolding interrupted_removal
    interrupted_removal-cut_last x xs n room h =
        let c : Chain (node_next q) q.irq_pending_list (x ∷ xs) = rw n at r.chain in
        let nb : q.nb_pending_irq_request ≡ suc (length xs) = omega (arith, r.count, ap length n) in
        let found : walk q.nb_pending_irq_request null q.irq_pending_list q
            ≡ some (last_two null x xs) =
          ap (λ z. walk q.nb_pending_irq_request null z q) c.0
          ∙ walk-last_two q q.nb_pending_irq_request null x xs (refl, c.1, c.2, c.3)
              (omega arith) in
        let pending : (q.nb_pending_irq_request == 0) ≡ false = ground arith in
        rw (pending, found, add_pending_irq-linked a q s t e es p r room h) refl

    -- With two nodes or more, the interrupt could as well have come before the removal.
    two_nodes :
        (x y : Ptr) (ys : List Ptr)
        → r.nodes ≡ x ∷ y ∷ ys
        → length es < max_nbr_pending_irq
        → kmalloc sizeof_node s ≡ some (p, t)
        → interrupted_removal e q s ≡ get_and_remove_pending_irq a (linked a q s t e es p r) t
    unfolding last_two
    two_nodes x y ys n room h =
        let m : Chain _ _ (p ∷ r.nodes) × (_ ≡ length (p ∷ r.nodes)) =
          linked-nodes a q s t e es p r h in
        let m' : Chain (node_next (linked a q s t e es p r)) _ (p ∷ x ∷ y ∷ ys)
            × (_ ≡ suc (suc (suc (length ys)))) =
          rw n at m in
        interrupted_removal-cut_last x (y ∷ ys) n room h
        ∙ sym (get_and_remove-cut_last a (linked a q s t e es p r) t p (x ∷ y ∷ ys) m'.0 m'.1)

  length-nodes :
      (q : Pending) (s : Store) (es : List Entry) (r : Represents a q s es) (nodes : List Ptr)
      → r.nodes ≡ nodes
      → length nodes ≡ length es
  length-nodes q s es r nodes n = sym (ap length n) ∙ sym r.count ∙ Represents-length a q s es r

  several :
      (q : Pending) (s t : Store) (e : Entry) (p : Ptr) (x y : Entry) (es : List Entry)
      (r : Represents a q s (x ∷ y ∷ es)) (nodes : List Ptr)
      → r.nodes ≡ nodes
      → length (x ∷ y ∷ es) < max_nbr_pending_irq
      → kmalloc sizeof_node s ≡ some (p, t)
      → interrupted_removal e q s
        ≡ get_and_remove_pending_irq a (linked a q s t e (x ∷ y ∷ es) p r) t
  several q s t e p x y es r [] n room h = ground (arith, length-nodes q s (x ∷ y ∷ es) r [] n)
  several q s t e p x y es r (b ∷ []) n room h =
      ground (arith, length-nodes q s (x ∷ y ∷ es) r (b ∷ []) n)
  several q s t e p x y es r (b ∷ c ∷ bs) n room h =
      two_nodes q s t e p (x ∷ y ∷ es) r b c bs n room h

  -- An interrupt in the middle of a removal from a queue of two entries or more adds its entry at
  -- the end, and the oldest entry is the one removed.
  pub interrupted_removal-several :
      (q : Pending) (s t : Store) (e : Entry) (p : Ptr) (x y : Entry) (es : List Entry)
      → Represents a q s (x ∷ y ∷ es)
      → length (x ∷ y ∷ es) < max_nbr_pending_irq
      → kmalloc sizeof_node s ≡ some (p, t)
      → (q' : Pending) × (u : Store) × (interrupted_removal e q s ≡ ok (some x, q', u))
        × Represents a q' u (y ∷ es ++ e ∷ [])
  interrupted_removal-several q s t e p x y es r room h =
      rw (several q s t e p x y es r r.nodes refl room h) (
        get_and_remove_pending_irq-cons a _ t x (y ∷ es ++ e ∷ [])
          (linked-Represents a q s t e (x ∷ y ∷ es) p r h))

  one_node :
      (q : Pending) (s t : Store) (e : Entry) (p : Ptr) (x : Entry) (r : Represents a q s (x ∷ []))
      (nodes : List Ptr)
      → r.nodes ≡ nodes
      → kmalloc sizeof_node s ≡ some (p, t)
      → (q' : Pending) × (u : Store) × (interrupted_removal e q s ≡ ok (some x, q', u))
        × (q'.irq_pending_list ≡ null)
        × (q'.nb_pending_irq_request ≡ 1)
        × (live u p ≡ true)
  unfolding last_two cut_last linked
  one_node q s t e p x r [] n h = ground (arith, length-nodes q s (x ∷ []) r [] n)
  one_node q s t e p x r (b ∷ c ∷ bs) n h =
      ground (arith, length-nodes q s (x ∷ []) r (b ∷ c ∷ bs) n)
  one_node q s t e p x r (b ∷ []) n h =
      let absent : Absent p (b ∷ []) = rw n at (linked-Chain a q s t e (x ∷ []) p r h).0 in
      let one : q.nb_pending_irq_request ≡ 1 = Represents-length a q s (x ∷ []) r in
      let old : node_entry (linked a q s t e (x ∷ []) p r) b ≡ x =
        let whole : reverse (map (node_entry q) (b ∷ [])) ≡ x ∷ [] = rw n at r.entries in
        let only : node_entry q b ∷ [] ≡ x ∷ [] = whole in
        let entry : node_entry q b ≡ x = cc in ground (arith, absent.0, entry) in
      (
        cut_last null (linked a q s t e (x ∷ []) p r),
        kfree b t,
        interrupted_removal-cut_last q s t e p (x ∷ []) r b [] n (omega arith) h
            ∙ ap (λ z. ok (some z, cut_last null (linked a q s t e (x ∷ []) p r), kfree b t)) old,
        refl,
        omega arith,
        ground (arith, a.kmalloc-live _ s p t p h, a.kfree-live b t p, absent.0),
      )

  -- An interrupt in the middle of the removal of the only entry is lost: the list is empty and
  -- counts one entry, and the node of the new entry stays allocated.
  pub interrupted_removal-lost :
      (q : Pending) (s t : Store) (e : Entry) (p : Ptr) (x : Entry)
      → Represents a q s (x ∷ [])
      → kmalloc sizeof_node s ≡ some (p, t)
      → (q' : Pending) × (u : Store) × (interrupted_removal e q s ≡ ok (some x, q', u))
        × (q'.irq_pending_list ≡ null)
        × (q'.nb_pending_irq_request ≡ 1)
        × (live u p ≡ true)
  interrupted_removal-lost q s t e p x r h = one_node q s t e p x r r.nodes refl h
