-- ===== src/PendingList/Removal.antt =====
-- kirqPendingList.c: `getAndRemovePendingIrq` and the queue.
use mathlib.Core.Path.{fun_ext, subst}
use mathlib.Core.List.{map, reverse, reverse-append}
use osa_kernel_arm_boot_step.Prelude.{
  suc, ◌+◌, ◌≤◌, ◌-◌, ◌≡◌, ◌≢◌, refl, sym, ap, ◌∙◌, true, false, none, some, List, [], ◌∷◌, ◌==◌,
  update, length, All, arith,
}
use osa_kernel_arm_boot_step.Kmem.State.{Ptr, null}
use osa_kernel_arm_boot_step.Kmem.Chain.{Chain, Chain-frame, All-of_Absent, null-Absent}
use osa_kernel_arm_boot_step.PendingList.Nodes.{
  node_next, node_entry, last_two, but_last, walk-last_two, last_two-Absent, but_last-Chain,
  but_last-Absent, map-but_last, length-but_last, All-at, All-but_last, last-not-but_last,
  last_two-All,
}
use osa_kernel_arm_boot_step.PendingList.Queue.{Represents, Represents-length}
use osa_kernel_arm_boot_step.PendingList.{
  max_nbr_pending_irq, Allocator, Entry, Pending, ok, walk, cut_last, get_and_remove_pending_irq,
}

module _ (a : Allocator) where
  open a use {Store, kmalloc, kfree, live, used}

  module _ (q : Pending) (s : Store) where
    cut_last-inner :
        (p b : Ptr)
        → p ≢ null
        → ((cut_last p q).irq_pending_list ≡ q.irq_pending_list)
          × (node_next (cut_last p q) b ≡ update (node_next q) p null b)
    unfolding cut_last
    cut_last-inner p b ne = ground arith

    cut_last-Chain :
        (x : Ptr) (xs : List Ptr)
        → Chain (node_next q) q.irq_pending_list (x ∷ xs)
        → Chain
            (node_next (cut_last (last_two null x xs).0 q))
            (cut_last (last_two null x xs).0 q).irq_pending_list
            (but_last x xs)
    unfolding last_two but_last
    cut_last-Chain x [] c = unfold cut_last in refl
    cut_last-Chain x (y ∷ ys) c =
        let d : Chain (node_next q) x (x ∷ y ∷ ys) = (refl, c.1, c.2, c.3) in
        let out = null-Absent (node_next q) x (x ∷ y ∷ ys) d in
        let prev : Ptr = (last_two x y ys).0 in
        let inner : prev ≢ null = λ e. (last_two-Absent null x y ys out.0 out.1).0 (sym e) in
        subst (λ h. Chain (node_next (cut_last prev q)) h (but_last x (y ∷ ys)))
          (sym ((cut_last-inner prev x inner).0 ∙ c.0))
          (Chain-frame (update (node_next q) prev null) _ x (but_last x (y ∷ ys))
            (but_last-Chain (node_next q) null x y ys d)
            (All-of_Absent _ null (but_last x (y ∷ ys)) (but_last-Absent null x (y ∷ ys) out)
              λ b ne. (cut_last-inner prev b inner).1))

    cut_last-node_entry : (p b : Ptr) → node_entry (cut_last p q) b ≡ node_entry q b
    unfolding cut_last
    cut_last-node_entry p b = ground arith

    cut_last-count :
        (p : Ptr) → (cut_last p q).nb_pending_irq_request ≡ q.nb_pending_irq_request - 1
    unfolding cut_last
    cut_last-count p = ground arith

    cut_last-Represents :
        (x : Ptr) (xs : List Ptr)
        → Chain (node_next q) q.irq_pending_list (x ∷ xs)
        → q.nb_pending_irq_request ≡ suc (length xs)
        → All (λ p. live s p ≡ true) (x ∷ xs)
        → used s + max_nbr_pending_irq ≤ a.limit + suc (length xs)
        → Represents a
            (cut_last (last_two null x xs).0 q)
            (kfree (last_two null x xs).1 s)
            (reverse (map (node_entry q) (but_last x xs)))
    cut_last-Represents x xs c n all room = record {
      nodes = but_last x xs;
      chain = cut_last-Chain x xs c;
      count = omega (arith, cut_last-count (last_two null x xs).0, length-but_last x xs);
      in_use =
          All-at (live s) (live (kfree (last_two null x xs).1 s)) (but_last x xs)
            (last_two null x xs).1 (last-not-but_last (node_next q) null x xs (refl, c.1, c.2, c.3))
            (λ b ne. ground (arith, a.kfree-live (last_two null x xs).1 s b))
            (All-but_last _ null x xs all);
      memory = omega (
        arith,
        room,
        length-but_last x xs,
        a.kfree-used (last_two null x xs).1 s (last_two-All _ null x xs all),
      );
      entries =
          ap (λ (f : Ptr → Entry). reverse (map f (but_last x xs)))
            (fun_ext (cut_last-node_entry (last_two null x xs).0));
    }

    pub get_and_remove-cut_last :
        (x : Ptr) (xs : List Ptr)
        → Chain (node_next q) q.irq_pending_list (x ∷ xs)
        → q.nb_pending_irq_request ≡ suc (length xs)
        → get_and_remove_pending_irq a q s
          ≡ ok (
            some (node_entry q (last_two null x xs).1),
            cut_last (last_two null x xs).0 q,
            kfree (last_two null x xs).1 s,
          )
    unfolding get_and_remove_pending_irq
    get_and_remove-cut_last x xs c n =
        let d : Chain (node_next q) x (x ∷ xs) = (refl, c.1, c.2, c.3) in
        let found : walk q.nb_pending_irq_request null q.irq_pending_list q
            ≡ some (last_two null x xs) =
          ap (λ h. walk q.nb_pending_irq_request null h q) c.0
          ∙ walk-last_two q q.nb_pending_irq_request null x xs d (omega arith) in
        let pending : (q.nb_pending_irq_request == 0) ≡ false = ground arith in rw (pending, found)

    -- What the queue loses, and what is left of it.
    queue-snoc :
        (x : Ptr) (xs : List Ptr)
        → reverse (map (node_entry q) (x ∷ xs))
          ≡ node_entry q (last_two null x xs).1 ∷ reverse (map (node_entry q) (but_last x xs))
    queue-snoc x xs =
        ap reverse (map-but_last (node_entry q) null x xs)
        ∙ reverse-append (map (node_entry q) (but_last x xs)) _

  removed :
      (q : Pending) (s : Store) (e : Entry) (es : List Entry) (nodes : List Ptr)
      → Chain (node_next q) q.irq_pending_list nodes
      → q.nb_pending_irq_request ≡ length nodes
      → All (λ p. live s p ≡ true) nodes
      → used s + max_nbr_pending_irq ≤ a.limit + length nodes
      → reverse (map (node_entry q) nodes) ≡ e ∷ es
      → (q' : Pending) × (t : Store) × (get_and_remove_pending_irq a q s ≡ ok (some e, q', t))
        × Represents a q' t es
  removed q s e es [] c n all room r = cc
  removed q s e es (x ∷ xs) c n all room r =
      let two = last_two null x xs in
      let snoc = sym (queue-snoc q s x xs) ∙ r in
      let same : (node_entry q two.1 ≡ e) × (reverse (map (node_entry q) (but_last x xs)) ≡ es) =
        (cc, cc) in
      (
        cut_last two.0 q,
        kfree two.1 s,
        get_and_remove-cut_last q s x xs c n
            ∙ ap (λ b. ok (some b, cut_last two.0 q, kfree two.1 s)) same.0,
        subst (Represents a (cut_last two.0 q) (kfree two.1 s)) same.1
            (cut_last-Represents q s x xs c n all room),
      )

  -- On a queue that is not empty, the oldest entry is returned, its node is freed, and the rest of
  -- the queue stays in its order.
  pub get_and_remove_pending_irq-cons :
      (q : Pending) (s : Store) (e : Entry) (es : List Entry)
      → Represents a q s (e ∷ es)
      → (q' : Pending) × (t : Store) × (get_and_remove_pending_irq a q s ≡ ok (some e, q', t))
        × Represents a q' t es
  get_and_remove_pending_irq-cons q s e es r =
      removed q s e es r.nodes r.chain r.count r.in_use r.memory r.entries

  pub get_and_remove_pending_irq-nil :
      (q : Pending) (s : Store)
      → Represents a q s []
      → get_and_remove_pending_irq a q s ≡ ok (none, q, s)
  unfolding get_and_remove_pending_irq
  get_and_remove_pending_irq-nil q s r = ground (arith, Represents-length a q s [] r)
